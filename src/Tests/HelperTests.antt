-- ===== src/Tests/HelperTests.antt =====
-- The helpers of the test programs at sample inputs.
use tx_queue.Base.{ℕ, inr, ◌≡◌, refl, [], ◌∷◌, pos, negsuc, some, arith}
use tx_queue.Memory.{nullptr}
use tx_queue.Duration.{
  day, second, plural, comma, no_time, number, text, count, count_days, plural_if, separator,
  add_days, add_counted, add_short, add_ns, add_no_time, format_duration,
}
use tx_queue.Duration.Laws.{meaning, format_duration-meaning}
use tx_queue.SharedMemory.{opened, null, Answers, destroy}
use tx_queue.SharedMemory.Laws.{uses, destroy_behind_view}

-- "2 days, 1 second"
words_of_two_days :
    format_duration (pos 172801000000000)
    ≡ number 2 ∷ text day ∷ text plural ∷ text comma ∷ number 1 ∷ text second ∷ []
unfolding format_duration count count_days plural_if separator add_days add_counted add_short add_ns
    add_no_time
words_of_two_days = refl

format_duration-meaning_example : meaning 0 (format_duration (pos 90061001001001)) ≡ 90061001001001
format_duration-meaning_example = format_duration-meaning 90061001001001

-- A negative duration is written as none at all.
negative : format_duration (negsuc 6) ≡ text no_time ∷ []
unfolding format_duration count count_days add_days add_counted add_short add_ns add_no_time
negative = refl

-- The section is not there.
abbrev unseen : Answers × ℕ
unseen = (record { mapping = null; view = nullptr }, 0)

destroy_behind_view_example :
    destroy
      (uses 0 (unseen ∷ unseen ∷ (record { mapping = opened 1; view = 4096 }, 16512) ∷ unseen ∷ []))
    ≡ (some 4160, some (opened 1))
destroy_behind_view_example =
    destroy_behind_view 1 4096 0 16512 (unseen ∷ unseen ∷ []) (unseen ∷ []) (omega arith)
      (inr refl, (inr refl, tt))
