-- ===== src/Util/Equality.antt =====
-- The `==` and `!=` of the element types of the containers.
use inf3_os.Base.{
  ap, refl, ◌≢◌, false, ◌&&◌, List, [], ◌∷◌, arith, ==_refl, ℕ, ◌≡◌, ◌↔◌, Bool, true, ==_iff,
}
use inf3_os.Base.{◌==◌ as nat_eq}

pub record Eq {ℓ} (A : Type ℓ) : Type ℓ where
  pub same : A → A → Bool
  pub same_iff : (a b : A) → (same a b ≡ true) ↔ (a ≡ b)

-- Numbers, and so pointers and handles.
instance abbrev pub ℕ_eq : Eq ℕ
ℕ_eq = record { same = nat_eq; same_iff = ==_iff }

-- The test on lists of numbers, such as texts and paths.
abbrev pub same_list : List ℕ → List ℕ → Bool
same_list [] [] = true
same_list [] (k ∷ q) = false
same_list (k ∷ p) [] = false
same_list (k ∷ p) (j ∷ q) = nat_eq k j && same_list p q

pub same_list_refl : (p : List ℕ) → same_list p p ≡ true
same_list_refl [] = refl
same_list_refl (k ∷ p) = rw (==_refl k, same_list_refl p) refl

pub same_list-eq : (p q : List ℕ) → same_list p q ≡ true → p ≡ q
same_list-eq [] [] h = refl
same_list-eq [] (k ∷ q) h = cc
same_list-eq (k ∷ p) [] h = cc
same_list-eq (k ∷ p) (j ∷ q) h =
    let first : k ≡ j = ground arith in
    let others : same_list p q ≡ true = ground arith in
    let rest = same_list-eq p q others in λ i. first i ∷ rest i

pub same_list-ne : (p q : List ℕ) → same_list p q ≡ false → p ≢ q
same_list-ne p q h e = let same = same_list_refl p in let other = ap (same_list p) e in cc
