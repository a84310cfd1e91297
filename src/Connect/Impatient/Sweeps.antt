-- ===== src/Connect/Impatient/Sweeps.antt =====
-- connect/complex_connect.cpp: what AfterSelect leaves of the connectors.
use go_socket_client.Prelude.{
  ℕ, zero, suc, ◌+◌, ◌≡◌, ap, ◌∙◌, Option, none, some, List, [], ◌∷◌, arith, if◌then◌else◌,
}
use go_socket_client.Connect.Connector.{Connector, Answers, after_select}
use go_socket_client.Connect.Impatient.{sockets_of, running, Swept, sweep, after_all}
use go_socket_client.Connect.Impatient.Shape.{
  IsMet, after_select-IsBegun, after_select-same, Shape, MidShape,
}

mid-fresh : (xs : List (Option Connector)) → MidShape zero xs → Shape zero xs
mid-fresh [] h = tt
mid-fresh (x ∷ xs) h = (h.0, mid-fresh xs h.1)

pub none-running : (xs : List (Option Connector)) → running xs ≡ running (none ∷ xs)
unfolding running sockets_of
none-running xs = omega arith

none-balance :
    (xs : List (Option Connector)) (closes wins : ℕ) (ys : List (Option Connector))
    → (running xs + closes) + wins ≡ running ys
    → (running (none ∷ xs) + closes) + wins ≡ running (none ∷ ys)
unfolding running sockets_of
none-balance xs closes wins ys h = omega (arith, h)

some-running :
    (a : Answers) (c : Connector) (xs : List (Option Connector))
    → sockets_of (some (after_select a c)) + running xs ≡ running (some c ∷ xs)
unfolding running sockets_of
some-running a c xs = ap (λ b. (if b then 1 else 0) + running xs) (after_select-same a c)

-- The socket that is returned.
abbrev pub won : Option ℕ → ℕ
won none = 0
won (some i) = 1

pub sweep-running :
    (i : ℕ) (c : Connector) (xs : List (Option Connector)) (rest : Swept)
    → IsMet c
    → (running rest.left + rest.closes) + won rest.winner ≡ running xs
    → let w = sweep i c xs rest in
      (running w.left + w.closes) + won w.winner ≡ sockets_of (some c) + running xs
unfolding sweep running sockets_of
sweep-running i c xs rest h k = ground (arith, h, k)

pub sweep-Shape :
    (i n : ℕ) (c : Connector) (xs : List (Option Connector)) (rest : Swept)
    → IsMet c
    → (rest.winner ≡ none → Shape n rest.left)
    → (sweep i c xs rest).winner ≡ none
    → Shape (suc n) (sweep i c xs rest).left
unfolding sweep
sweep-Shape i n c xs rest h k e = ground (arith, h, k, e)

-- AfterSelect of all: the sockets that are left, closed and returned are those that there were, and if
-- none is returned, every connector below the index is at work or gone.
pub after_all-Shape :
    (a : ℕ → Answers) (i n : ℕ) (xs : List (Option Connector))
    → MidShape n xs
    → let w = after_all a i n xs in
      ((running w.left + w.closes) + won w.winner ≡ running xs) × (w.winner ≡ none → Shape n w.left)
unfolding after_all
after_all-Shape a i zero xs h = (omega arith, λ e. mid-fresh xs h)
after_all-Shape a i (suc n) [] h = (omega arith, λ e. tt)
after_all-Shape a i (suc n) (none ∷ xs) h =
    let k = after_all-Shape a (i + 1) n xs h.1 in
    let rest = after_all a (i + 1) n xs in
    (none-balance rest.left rest.closes (won rest.winner) xs k.0, λ e. (tt, k.1 e))
after_all-Shape a i (suc n) (some c ∷ xs) h =
    let k = after_all-Shape a (i + 1) n xs h.1 in
    let rest = after_all a (i + 1) n xs in
    let d = after_select (a i) c in
    let m = after_select-IsBegun (a i) c h.0 in
    (sweep-running i d xs rest m k.0 ∙ some-running (a i) c xs, sweep-Shape i n d xs rest m k.1)
