-- ===== src/Keyboard/Laws.antt =====
-- The wait for a key ends when the key was pressed and let go.
use tx_queue.Base.{
  ℕ, ◌≡◌, refl, ap, ◌∙◌, ◌↔◌, Bool, true, false, inl, inr, List, [], ◌∷◌, ◌++◌, Option, none, some,
  Bool-cases,
}
use tx_queue.Keyboard.{is_down, wait_down, wait_up, and_then, wait_until_key_release}

abbrev pub AllAre : Bool → List ℕ → Type 0
AllAre down [] = Unit
AllAre down (answer ∷ later) = (is_down answer ≡ down) × AllAre down later

-- What the first loop takes: answers with the key up, and one with the key down.
Pressed : (answers later : List ℕ) → Type 0
Pressed answers later =
    (ups : List ℕ) × (down : ℕ) × (answers ≡ ups ++ (down ∷ later))
    × AllAre false ups
    × (is_down down ≡ true)

pressed :
    (answers : List ℕ) {later : List ℕ} → wait_down answers ≡ some later → Pressed answers later
unfolding wait_down Pressed
pressed [] e = cc
pressed (answer ∷ more) e = elim (Bool-cases (is_down answer)) [
  | inl down ↦ ([], answer, ap (λ t. answer ∷ t) (cc (rw down at e)), tt, down)
  | inr up ↦
      let (ups, down, split, all, is) = pressed more (rw up at e) in
      (answer ∷ ups, down, ap (λ t. answer ∷ t) split, (up, all), is)
]

wait_down_all :
    (ups later : List ℕ) (down : ℕ)
    → AllAre false ups
    → is_down down ≡ true
    → wait_down (ups ++ (down ∷ later)) ≡ some later
unfolding wait_down
wait_down_all [] later down all is = rw is refl
wait_down_all (up ∷ ups) later down all is = rw all.0 (wait_down_all ups later down all.1 is)

Released : (answers rest : List ℕ) → Type 0
Released answers rest =
    (downs : List ℕ) × (up : ℕ) × (answers ≡ downs ++ (up ∷ rest))
    × AllAre true downs
    × (is_down up ≡ false)

released : (answers : List ℕ) {rest : List ℕ} → wait_up answers ≡ some rest → Released answers rest
unfolding wait_up Released
released [] e = cc
released (answer ∷ more) e = elim (Bool-cases (is_down answer)) [
  | inl down ↦
      let (downs, up, split, all, is) = released more (rw down at e) in
      (answer ∷ downs, up, ap (λ t. answer ∷ t) split, (down, all), is)
  | inr up ↦ ([], answer, ap (λ t. answer ∷ t) (cc (rw up at e)), tt, up)
]

wait_up_all :
    (downs rest : List ℕ) (up : ℕ)
    → AllAre true downs
    → is_down up ≡ false
    → wait_up (downs ++ (up ∷ rest)) ≡ some rest
unfolding wait_up
wait_up_all [] rest up all is = rw is refl
wait_up_all (down ∷ downs) rest up all is = rw all.0 (wait_up_all downs rest up all.1 is)

-- The wait ends with `rest` unasked exactly when the answers before it are: some with the key up, at
-- least one with the key down, and one with the key up again.
pub wait_until_key_release_iff :
    (answers rest : List ℕ)
    → (wait_until_key_release answers ≡ some rest) ↔ (
        (ups : List ℕ) × (down : ℕ) × (downs : List ℕ) × (up : ℕ) × (answers
          ≡ ups ++ (down ∷ (downs ++ (up ∷ rest))))
        × AllAre false ups
        × (is_down down ≡ true)
        × AllAre true downs
        × (is_down up ≡ false))
unfolding wait_until_key_release Pressed Released
wait_until_key_release_iff answers rest = (
  λ e.
      let (later, first, second) = and_then-eq-some (wait_down answers) e in
      let (ups, down, split, all, is) = pressed answers first in
      let (downs, up, split', all', is') = released later second in
      (ups, down, downs, up, split ∙ ap (λ t. ups ++ (down ∷ t)) split', all, is, all', is'),
  λ (ups, down, downs, up, split, all, is, all', is').
      ap (λ t. and_then (wait_down t) wait_up) split
      ∙ ap (λ o. and_then o wait_up) (wait_down_all ups (downs ++ (up ∷ rest)) down all is)
      ∙ wait_up_all downs rest up all' is',
)
  where
    and_then-eq-some :
        (o : Option (List ℕ))
        → and_then o wait_up ≡ some rest
        → (later : List ℕ) × (o ≡ some later) × (wait_up later ≡ some rest)
    and_then-eq-some none e = cc
    and_then-eq-some (some later) e = (later, refl, e)
