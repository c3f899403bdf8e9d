-- ===== src/Tools/Shell/Laws.antt =====
-- Reports of offenders: when one is empty.
use agentic_identity_lab.Prelude.{
  ◌≡◌, refl, ◌↔◌, inl, inr, String, Bool, true, false, List, [], ◌∷◌, ◌++◌, All, keep, map,
  Bool-cases,
}
use agentic_identity_lab.Tools.Shell.{offender_if, concat}

pub append_nil : {A : Type 0} (xs ys : List A) → (xs ++ ys ≡ []) ↔ ((xs ≡ []) × (ys ≡ []))
append_nil [] ys = (λ h. (refl, h), λ (h, k). k)
append_nil (x ∷ xs) ys = (λ h. absurd cc, λ (h, k). absurd cc)

pub offender_if_iff : (b : Bool) (s : String) → (offender_if b s ≡ []) ↔ (b ≡ false)
offender_if_iff true s = (λ h. absurd cc, λ h. absurd cc)
offender_if_iff false s = (λ h. refl, λ h. refl)

pub concat_nil :
    {A : Type 0} (lists : List (List A)) → (concat lists ≡ []) ↔ All (λ xs. xs ≡ []) lists
concat_nil [] = (λ h. tt, λ h. refl)
concat_nil (xs ∷ rest) =
    let (to, from) = append_nil xs (concat rest) in
    let (all, none) = concat_nil rest in
    (λ h. let (a, b) = to h in (a, all b), λ (a, b). from (a, none b))

pub map_nil : {A B : Type 0} (f : A → B) (xs : List A) → (map f xs ≡ []) ↔ (xs ≡ [])
map_nil f [] = (λ h. refl, λ h. refl)
map_nil f (x ∷ xs) = (λ h. absurd cc, λ h. absurd cc)

pub keep_nil :
    {A : Type 0} (p : A → Bool) (xs : List A) → (keep p xs ≡ []) ↔ All (λ x. p x ≡ false) xs
unfolding keep
keep_nil p [] = (λ h. tt, λ h. refl)
keep_nil p (x ∷ xs) =
    let (to, from) = keep_nil p xs in
    elim (Bool-cases (p x)) [
      | inl held ↦ (λ h. absurd (cc (rw held at h)), λ (a, h). cc)
      | inr fails ↦ (λ h. (fails, to (rw fails at h)), λ (a, h). rw fails (from h))
    ]

pub All-map :
    {A : Type 0} {P Q : A → Type 0} (xs : List A) → ((x : A) → P x → Q x) → All P xs → All Q xs
All-map [] f h = tt
All-map (x ∷ xs) f (p, h) = (f x p, All-map xs f h)

-- A pair, for a list of evidence.
infixr 4 ◌&◌
pub ◌&◌ : {A B : Type 0} → A → B → A × B
a & b = (a, b)
