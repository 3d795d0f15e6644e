-- ===== src/Hprof/Header.antt =====
-- The header that openDump of heapdump/hprofx/hprof.go reads; its calls of fatal are `none`.
use rootforge.Prelude.{ℕ, zero, suc, not, none, some, [], ◌∷◌, length, take, ◌==◌, if◌then◌else◌}
use rootforge.Text.{Text, text, text_eq}
use rootforge.Hprof.Reader.{Reader, Parsed, unsigned, u1, u4, u8, ◌>>=◌}

-- The bytes up to the NUL. Each turn reads one byte, so one more than are left is fuel enough.
unfoldable pub read_format : ℕ → Reader → Parsed Text
unfolding unsigned
read_format zero d = none
read_format (suc fuel) d = u1 d >>= λ c.
    let rest = read_format fuel c.1 in
    if c.0 == 0 then some ([], c.1) else (rest >>= λ r. some (c.0 ∷ r.0, r.1))

-- openDump after the file is open: the timestamp.
unfoldable pub open_dump : Reader → Parsed ℕ
unfolding unsigned read_format text_eq
open_dump d = read_format (suc (length d.rest)) d >>= λ format. u4 format.1 >>= λ size.
    if not (size.0 == 8)
    then none
    else (u8 size.1 >>= λ stamp.
        if text_eq (take 12 format.0) (text "JAVA PROFILE") then some stamp else none)
