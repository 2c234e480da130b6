-- ===== src/Keyboard.antt =====
-- `wait_until_key_release` of utests/common/misc.h, on what `GetAsyncKeyState` answers.
pub mod Laws
use tx_queue.Base.{ℕ, ◌/◌, ◌%◌, ◌^◌, Bool, List, [], ◌∷◌, Option, none, some, ◌==◌, if◌then◌else◌}

-- `& 0x8000`
abbrev pub is_down : ℕ → Bool
is_down answer = answer / 2 ^ 15 % 2 == 1

-- The two loops, with the answers that are not asked for yet. `none` is a wait that goes on.
unfoldable pub wait_down : List ℕ → Option (List ℕ)
wait_down [] = none
wait_down (answer ∷ later) =
    let rest = wait_down later in if is_down answer then some later else rest

unfoldable pub wait_up : List ℕ → Option (List ℕ)
wait_up [] = none
wait_up (answer ∷ later) = let rest = wait_up later in if is_down answer then rest else some later

abbrev pub and_then : Option (List ℕ) → (List ℕ → Option (List ℕ)) → Option (List ℕ)
and_then none f = none
and_then (some l) f = f l

unfoldable pub wait_until_key_release : List ℕ → Option (List ℕ)
wait_until_key_release answers = and_then (wait_down answers) wait_up
