-- ===== src/Common/Maps.antt =====
-- `Map`: an association list in the order of insertion. `set` keeps the place of a key that is
-- there and appends a new one; `delete` removes the key.
use mathlib.Core.Path.{◌≡◌, refl, subst}
use mathlib.Core.Logic.{inl, inr}
use mathlib.Core.Bool.{Bool, true, false}
use mathlib.Core.List.{List, [], ◌∷◌, ◌++◌}
use mathlib.Core.Option.{Option, none, some}
use native.Mathlib.Omega.{arith}
use Prim.Native.Nat.{◌+◌, ◌≤◌}
use vpn_pi.Common.Tests.{if◌then◌else◌, Eq, ◌==◌, is_some, Bool-cases}
use vpn_pi.Common.Lists.{length, All, All-imp, filterb}

abbrev pub Map {ℓ κ} : Type ℓ → Type κ → Type (ℓ ⊔ κ)
Map K V = List (K × V)

module _ {ℓ κ} {K : Type ℓ} {V : Type κ} ⦃e : Eq K⦄ where
  unfoldable pub get : K → Map K V → Option V
  get k [] = none
  get k ((j, v) ∷ m) = if j == k then some v else get k m

  abbrev pub has : K → Map K V → Bool
  has k m = is_some (get k m)

  unfoldable pub set : K → V → Map K V → Map K V
  set k v [] = (k, v) ∷ []
  set k v ((j, w) ∷ m) = if j == k then (k, v) ∷ m else (j, w) ∷ set k v m

  unfoldable pub delete : K → Map K V → Map K V
  delete k [] = []
  delete k ((j, w) ∷ m) = let rest = delete k m in if j == k then rest else (j, w) ∷ rest

  pub get-set :
      (k j : K) (v : V) (m : Map K V) → get j (set k v m) ≡ (if k == j then some v else get j m)
  unfolding get set
  get-set k j v [] = refl
  get-set k j v ((i, w) ∷ m) =
      ground (arith, e.beq_iff i k, e.beq_iff i j, e.beq_iff k j, get-set k j v m)

  pub get-set_self : (k : K) (v : V) (m : Map K V) → get k (set k v m) ≡ some v
  get-set_self k v m = ground (arith, get-set k k v m, e.beq_iff k k)

  pub get-delete : (k j : K) (m : Map K V) → get j (delete k m) ≡ (if k == j then none else get j m)
  unfolding get delete
  get-delete k j [] = ground arith
  get-delete k j ((i, w) ∷ m) =
      ground (arith, e.beq_iff i k, e.beq_iff i j, e.beq_iff k j, get-delete k j m)

  pub get-delete_self : (k : K) (m : Map K V) → get k (delete k m) ≡ none
  get-delete_self k m = ground (arith, get-delete k k m, e.beq_iff k k)

  pub length-set-le : (k : K) (v : V) (m : Map K V) → length (set k v m) ≤ length m + 1
  unfolding set
  length-set-le k v [] = omega arith
  length-set-le k v ((j, w) ∷ m) = ground (arith, length-set-le k v m)

  -- A property of every entry survives `set` of an entry that has it, and `delete`.
  pub All-set {μ} :
      (P : K × V → Type μ) (k : K) (v : V) (m : Map K V) → P (k, v) → All P m → All P (set k v m)
  unfolding set
  All-set P k v [] h a = (h, tt)
  All-set P k v ((j, w) ∷ m) h (p, a) = ground (arith, All-set P k v m h a)

  pub All-delete {μ} : (P : K × V → Type μ) (k : K) (m : Map K V) → All P m → All P (delete k m)
  unfolding delete
  All-delete P k [] a = tt
  All-delete P k ((j, w) ∷ m) (p, a) = ground (arith, All-delete P k m a)

  pub All-get {μ} :
      (P : K × V → Type μ) (k : K) (v : V) (m : Map K V) → All P m → get k m ≡ some v → P (k, v)
  unfolding get
  All-get P k v [] a h = absurd (cc)
  All-get P k v ((j, w) ∷ m) (p, a) h = elim (Bool-cases (j == k)) [
    | inl hit ↦
        let same : ◌≡◌ {A = K × V} (j, w) (k, v) = ground (arith, e.beq_iff j k) in subst P same p
    | inr miss ↦ All-get P k v m a (ground arith)
  ]

  -- Filtering keeps an entry that passes the test, if it is the one that its key finds.
  pub get-filterb :
      (p : K × V → Bool) (k : K) (v : V) (m : Map K V)
      → get k m ≡ some v
      → p (k, v) ≡ true
      → get k (filterb p m) ≡ some v
  unfolding get filterb
  get-filterb p k v [] h t = cc
  get-filterb p k v ((j, w) ∷ m) h t = elim (Bool-cases (j == k)) [
    | inl hit ↦
        let same : ◌≡◌ {A = K × V} (k, v) (j, w) = ground (arith, e.beq_iff j k) in
        let passed : p (j, w) ≡ true = rw same at t in ground arith
    | inr miss ↦ ground (arith, get-filterb p k v m)
  ]

  -- A key that is not there is appended.
  pub set-new : (k : K) (v : V) (m : Map K V) → has k m ≡ false → set k v m ≡ m ++ (k, v) ∷ []
  unfolding get set
  set-new k v [] h = refl
  set-new k v ((j, w) ∷ m) h = ground (arith, set-new k v m)

  pub has-append_right : (k : K) (v : V) (m rest : Map K V) → has k (m ++ (k, v) ∷ rest) ≡ true
  unfolding get
  has-append_right k v [] rest = ground (arith, e.beq_iff k k)
  has-append_right k v ((j, w) ∷ m) rest = ground (arith, has-append_right k v m rest)

  -- Filtering adds no key.
  pub has-filterb :
      (p : K × V → Bool) (k : K) (m : Map K V) → has k m ≡ false → has k (filterb p m) ≡ false
  unfolding get filterb
  has-filterb p k [] h = h
  has-filterb p k ((j, w) ∷ m) h = ground (arith, has-filterb p k m)

  -- No key stands twice.
  abbrev pub IsDistinct : Map K V → Type 0
  IsDistinct [] = Unit
  IsDistinct ((k, v) ∷ m) = (has k m ≡ false) × IsDistinct m

  pub has-set_other :
      (k j : K) (v : V) (m : Map K V) → (k == j) ≡ false → has j (set k v m) ≡ has j m
  has-set_other k j v m h = ground (arith, get-set k j v m)

  pub set-IsDistinct : (k : K) (v : V) (m : Map K V) → IsDistinct m → IsDistinct (set k v m)
  unfolding set get
  set-IsDistinct k v [] h = (refl, tt)
  set-IsDistinct k v ((j, w) ∷ m) (new, h) =
      ground (arith, e.beq_iff j k, e.beq_iff k j, has-set_other k j v m, set-IsDistinct k v m h)

  pub delete-IsDistinct : (k : K) (m : Map K V) → IsDistinct m → IsDistinct (delete k m)
  unfolding delete
  delete-IsDistinct k [] h = tt
  delete-IsDistinct k ((j, w) ∷ m) (new, h) =
      ground (arith, get-delete k j m, delete-IsDistinct k m h)

  -- Every entry of such a map is the one that its key finds.
  pub All-get_self : (m : Map K V) → IsDistinct m → All (λ x. get x.0 m ≡ some x.1) m
  unfolding get
  All-get_self [] h = tt
  All-get_self ((k, v) ∷ m) (new, h) = (
    ground (arith, e.beq_iff k k),
    All-imp (λ x found. ground (arith, e.beq_iff k x.0)) m (All-get_self m h),
  )
