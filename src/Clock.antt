-- ===== src/Clock.antt =====
-- time.Time as the program uses it. An instant counts nanoseconds from the first second that a Time
-- can hold, 2 ^ 63 seconds before its zero value (1 January of year 1); zone 0 is UTC.
use rootforge.Prelude.{ℕ, ◌+◌, ◌*◌, ◌^◌, Bool, ltb, ◌==◌}

pub record Time : Type 0 where
  pub instant : ℕ
  pub zone : ℕ

abbrev pub zero_instant : ℕ
zero_instant = 2 ^ 63 * 1000000000

-- time.Time{}.
abbrev pub zero_time : Time
zero_time = record { instant = zero_instant; zone = 0 }

abbrev pub utc : Time → Time
utc t = record t { zone = 0 }

abbrev pub is_zero : Time → Bool
is_zero t = t.instant == zero_instant

abbrev pub before : Time → Time → Bool
before a b = ltb a.instant b.instant

abbrev pub after : Time → Time → Bool
after a b = ltb b.instant a.instant

abbrev pub same_instant : Time → Time → Bool
same_instant a b = a.instant == b.instant

-- A positive Duration added to a Time.
abbrev pub add : Time → ℕ → Time
add t d = record t { instant = t.instant + d }
