-- ===== src/Prelude/StdMap.antt =====
-- std::map with an integer key: the bindings in the order of the keys.
use go_socket_client.Prelude.Tests.{==_iff, ltb→lt, Bool-cases, ltb, ◌==◌, if◌then◌else◌}
use go_socket_client.Prelude.Lists.{All}
use Prim.Native.Nat.{suc, ℕ, ◌<◌}
use mathlib.Core.Path.{sym, subst, ◌≡◌, refl}
use mathlib.Core.Logic.{inr, inl, ◌≢◌}
use mathlib.Core.List.{List, [], ◌∷◌}
use mathlib.Core.Option.{Option, none, some}
use native.Mathlib.Omega.{arith}

module _ {ℓ} {A : Type ℓ} where
  -- `m[k] = v`
  unfoldable pub put : ℕ → A → List (ℕ × A) → List (ℕ × A)
  put k v [] = (k, v) ∷ []
  put k v ((i, a) ∷ m) =
      let rest = put k v m in
      if ltb k i then ((k, v) ∷ (i, a) ∷ m) else (if k == i then ((k, v) ∷ m) else ((i, a) ∷ rest))

  unfoldable pub find : ℕ → List (ℕ × A) → Option A
  find k [] = none
  find k ((i, a) ∷ m) = let rest = find k m in if k == i then some a else rest

  unfoldable pub erase : ℕ → List (ℕ × A) → List (ℕ × A)
  erase k [] = []
  erase k ((i, a) ∷ m) = let rest = erase k m in if k == i then m else ((i, a) ∷ rest)

  abbrev pub keys : List (ℕ × A) → List ℕ
  keys [] = []
  keys ((i, a) ∷ m) = i ∷ keys m

  -- The keys increase, which makes each of them stand once.
  abbrev pub IsSorted : List (ℕ × A) → Type 0
  IsSorted [] = Unit
  IsSorted ((i, a) ∷ m) = All (λ k. i < k) (keys m) × IsSorted m

  pub find-put : (k : ℕ) (v : A) (m : List (ℕ × A)) → find k (put k v m) ≡ some v
  unfolding put find
  find-put k v [] = ground arith
  find-put k v ((i, a) ∷ m) = ground (arith, find-put k v m)

  pub find-put-ne : (k j : ℕ) (v : A) (m : List (ℕ × A)) → k ≢ j → find j (put k v m) ≡ find j m
  unfolding put find
  find-put-ne k j v [] h = ground arith
  find-put-ne k j v ((i, a) ∷ m) h = ground (arith, find-put-ne k j v m h)

  pub find-above :
      (k i : ℕ) (m : List (ℕ × A)) → All (λ j. i < j) (keys m) → k < suc i → find k m ≡ none
  unfolding find
  find-above k i [] h l = refl
  find-above k i ((j, a) ∷ m) h l = ground (arith, h.0, find-above k i m h.1 l)

  pub find-erase : (k : ℕ) (m : List (ℕ × A)) → IsSorted m → find k (erase k m) ≡ none
  unfolding erase find
  find-erase k [] h = refl
  find-erase k ((i, a) ∷ m) h = elim (Bool-cases (k == i)) [
    | inl e ↦ rw (e) (find-above k i m h.0 (ground arith))
    | inr e ↦ ground (arith, find-erase k m h.1)
  ]

  pub find-erase-ne : (k j : ℕ) (m : List (ℕ × A)) → k ≢ j → find j (erase k m) ≡ find j m
  unfolding erase find
  find-erase-ne k j [] h = refl
  find-erase-ne k j ((i, a) ∷ m) h = ground (arith, find-erase-ne k j m h)

  pub keys-put-All :
      (P : ℕ → Type 0) (k : ℕ) (v : A) (m : List (ℕ × A))
      → P k
      → All P (keys m)
      → All P (keys (put k v m))
  unfolding put
  keys-put-All P k v [] h a = (h, tt)
  keys-put-All P k v ((i, b) ∷ m) h a = elim (Bool-cases (ltb k i)) [
    | inl e ↦ rw (e) (h, a)
    | inr e ↦ elim (Bool-cases (k == i)) [
      | inl e' ↦ rw (e, e') (h, a.1)
      | inr e' ↦ rw (e, e') (a.0, keys-put-All P k v m h a.1)
    ]
  ]

  pub keys-erase-All :
      (P : ℕ → Type 0) (k : ℕ) (m : List (ℕ × A)) → All P (keys m) → All P (keys (erase k m))
  unfolding erase
  keys-erase-All P k [] a = tt
  keys-erase-All P k ((i, b) ∷ m) a = elim (Bool-cases (k == i)) [
    | inl e ↦ rw (e) a.1
    | inr e ↦ rw (e) (a.0, keys-erase-All P k m a.1)
  ]

pub All-below : {P Q : ℕ → Type 0} → ((n : ℕ) → P n → Q n) → (xs : List ℕ) → All P xs → All Q xs
All-below f [] a = tt
All-below f (x ∷ xs) a = (f x a.0, All-below f xs a.1)

module _ {ℓ} {A : Type ℓ} where
  pub put-IsSorted : (k : ℕ) (v : A) (m : List (ℕ × A)) → IsSorted m → IsSorted (put k v m)
  unfolding put
  put-IsSorted k v [] h = (tt, tt)
  put-IsSorted k v ((i, b) ∷ m) h = elim (Bool-cases (ltb k i)) [
    | inl e ↦
        rw (e) ((ltb→lt k i e, All-below (λ n l. ground (arith, ltb→lt k i e)) (keys m) h.0), h)
    | inr e ↦ elim (Bool-cases (k == i)) [
      | inl e' ↦
          rw (e, e') (subst (λ j. All (λ n. j < n) (keys m)) (sym ((==_iff k i).0 e')) h.0, h.1)
      | inr e' ↦
          rw (e, e') (keys-put-All (λ j. i < j) k v m (ground arith) h.0, put-IsSorted k v m h.1)
    ]
  ]

  pub erase-IsSorted : (k : ℕ) (m : List (ℕ × A)) → IsSorted m → IsSorted (erase k m)
  unfolding erase
  erase-IsSorted k [] h = tt
  erase-IsSorted k ((i, b) ∷ m) h = elim (Bool-cases (k == i)) [
    | inl e ↦ rw (e) h.1
    | inr e ↦ rw (e) (keys-erase-All (λ j. i < j) k m h.0, erase-IsSorted k m h.1)
  ]
