-- ===== src/Client/Requests/Ids.antt =====
-- tcp_client.cpp, Send: the ids of the requests.
use go_socket_client.Prelude.{ℕ, zero, suc, ◌+◌, ◌-◌, ◌%◌, ◌≤◌, ◌<◌, ◌≡◌, ◌≢◌, arith}
use go_socket_client.Client.Requests.{next_msg_id, uint16_max}

-- The id after a number of requests.
abbrev pub id_after : ℕ → ℕ → ℕ
id_after zero i = i
id_after (suc n) i = next_msg_id (id_after n i)

pub id_after-closed : (n i : ℕ) → 1 ≤ i → i < uint16_max → id_after n i ≡ 1 + (i + n - 1) % 65534
unfolding next_msg_id
id_after-closed zero i h k = omega arith
id_after-closed (suc n) i h k = let e = id_after-closed n i h k in ground (arith, e)

-- From any id between 1 and 65534, all ids are between 1 and 65534, so that 0 stays for the requests
-- without a reply, and an id comes again only after 65534 requests.
pub id_after-distinct :
    (m n i : ℕ)
    → 1 ≤ i
    → i < uint16_max
    → m < n
    → n < m + 65534
    → (1 ≤ id_after m i) × (id_after m i < uint16_max) × (id_after m i ≢ id_after n i)
id_after-distinct m n i h k l u =
    let a = id_after-closed m i h k in
    let b = id_after-closed n i h k in
    (omega (arith, a), omega (arith, a), λ e. omega (arith, a, b, e))
