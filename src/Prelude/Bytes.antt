-- ===== src/Prelude/Bytes.antt =====
-- Byte strings, and the functions of the standard library on them that the code uses.
use Prim.Native.Nat.{ℕ, ◌+◌, ◌-◌, ◌*◌, ◌^◌}
use mathlib.Core.Path.{◌≡◌, refl}
use mathlib.Core.Logic.{◌↔◌, inl, inr}
use mathlib.Core.Bool.{Bool, true, false, ◌&&◌}
use mathlib.Core.List.{List, [], ◌∷◌, ◌++◌}
use mathlib.Core.Option.{Option, none, some}
use native.Mathlib.Omega.{arith}
use company_backend.Prelude.Tests.{ltb, leb, ◌==◌, ==_iff, Bool-cases, if◌then◌else◌}

abbrev pub Bytes : Type 0
Bytes = List ℕ

-- Equality of two byte strings, as `constant_time_eq` computes it.
unfoldable pub bytes_eq : Bytes → Bytes → Bool
bytes_eq [] [] = true
bytes_eq [] (y ∷ ys) = false
bytes_eq (x ∷ xs) [] = false
bytes_eq (x ∷ xs) (y ∷ ys) = x == y && bytes_eq xs ys

pub bytes_eq_iff : (a b : Bytes) → (bytes_eq a b ≡ true) ↔ (a ≡ b)
unfolding bytes_eq
bytes_eq_iff [] [] = ground arith
bytes_eq_iff [] (y ∷ ys) = ground arith
bytes_eq_iff (x ∷ xs) [] = ground arith
bytes_eq_iff (x ∷ xs) (y ∷ ys) = ground (arith, bytes_eq_iff xs ys)

-- `s.split(c).collect()`: one part more than there are separators.
abbrev pub extend : ℕ → List Bytes → List Bytes
extend x [] = (x ∷ []) ∷ []
extend x (part ∷ parts) = (x ∷ part) ∷ parts

unfoldable pub split : ℕ → Bytes → List Bytes
split c [] = [] ∷ []
split c (x ∷ xs) = let parts = split c xs in if x == c then [] ∷ parts else extend x parts

-- `parts.join(c)`
unfoldable pub join : ℕ → List Bytes → Bytes
join c [] = []
join c (part ∷ []) = part
join c (part ∷ next ∷ parts) = part ++ (c ∷ join c (next ∷ parts))

split-cons : (c : ℕ) (s : Bytes) → (p : Bytes) × (ps : List Bytes) × (split c s ≡ p ∷ ps)
unfolding split
split-cons c [] = ([], [], refl)
split-cons c (x ∷ xs) =
    let (p, ps, e) = split-cons c xs in
    elim (Bool-cases (x == c)) [
      | inl at_sep ↦ ([], split c xs, rw at_sep)
      | inr inside ↦ (x ∷ p, ps, rw (inside, e))
    ]

join-extend : (c x : ℕ) (p : Bytes) (ps : List Bytes) → join c ((x ∷ p) ∷ ps) ≡ x ∷ join c (p ∷ ps)
unfolding join
join-extend c x p [] = refl
join-extend c x p (y ∷ ys) = refl

-- Joining the parts of a split gives the text back.
pub join-split : (c : ℕ) (s : Bytes) → join c (split c s) ≡ s
unfolding join split
join-split c [] = refl
join-split c (x ∷ xs) =
    let (p, ps, e) = split-cons c xs in
    ground (arith, e, join-split c xs, join-extend c x p ps, ==_iff x c)

-- `s.parse::<u64>()`: an optional `+`, one digit or more, and no overflow.
digits_from : ℕ → Bytes → Option ℕ
digits_from n [] = some n
digits_from n (d ∷ ds) =
    let m = n * 10 + (d - 48) in
    let rest = digits_from m ds in if leb 48 d && leb d 57 && ltb m (2 ^ 64) then rest else none

unsigned : Bytes → Option ℕ
unfolding digits_from
unsigned [] = none
unsigned (d ∷ ds) = digits_from 0 (d ∷ ds)

unfoldable pub parse_u64 : Bytes → Option ℕ
unfolding unsigned
parse_u64 [] = none
parse_u64 (d ∷ ds) = if d == 43 then unsigned ds else unsigned (d ∷ ds)
