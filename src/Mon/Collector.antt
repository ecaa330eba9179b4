-- ===== src/Mon/Collector.antt =====
-- The history of internal/mon/collector.go, over any type of samples. What a sample holds comes from
-- /proc, /sys and helpers; the two mutexes make `CollectNow` one step on the history.
pub mod Ring
use stageneth.Prelude.{ℕ, ◌-◌, List, [], ◌∷◌, ◌++◌, if◌then◌else◌, ltb, ◌==◌, length, drop, ℤ}

-- the size of the slice that `History` returns
unfoldable pub history_size : ℤ → ℕ → ℕ
history_size (ℤ.negsuc n) len = len
history_size (ℤ.pos n) len = if n == 0 then len else if ltb len n then len else n

module _ {ℓ} {A : Type ℓ} where
  -- the end of `CollectNow`: `append`, and the cut to `maxHist`
  unfoldable pub push_sample : ℕ → A → List A → List A
  push_sample max_hist snap history =
      let grown = history ++ snap ∷ [] in
      if ltb max_hist (length grown) then drop (length grown - max_hist) grown else grown

  -- `History`
  unfoldable pub history_of : ℤ → List A → List A
  unfolding history_size
  history_of n history = drop (length history - history_size n (length history)) history
