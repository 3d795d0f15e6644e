-- ===== src/Hprof/Root.antt =====
-- skipRoot of heapdump/hprofx/hprof.go.
use rootforge.Prelude.{ℕ, Bool, true, false, ◌||◌, some, ◌==◌, if◌then◌else◌}
use rootforge.Hprof.Reader.{Reader, Parsed, id, u4, ◌>>=◌}

abbrev pub sub_heap_info : ℕ
sub_heap_info = 0xFE

-- The object, or 0, and whether the tag is that of a root.
unfoldable pub skip_root : ℕ → Reader → Parsed (ℕ × Bool)
skip_root tag d =
    if tag == 0xFF
    then (id d >>= λ v. some ((v.0, true), v.1))
    else if tag == 0x01
    then (id d >>= λ v. id v.1 >>= λ w. some ((v.0, true), w.1))
    else if tag == 0x02 || tag == 0x03 || tag == 0x08
    then (id d >>= λ v. u4 v.1 >>= λ w. u4 w.1 >>= λ x. some ((v.0, true), x.1))
    else if tag == 0x04 || tag == 0x06
    then (id d >>= λ v. u4 v.1 >>= λ w. some ((v.0, true), w.1))
    else if tag == 0x05 || tag == 0x07
    then (id d >>= λ v. some ((v.0, true), v.1))
    else if tag == sub_heap_info
    then (u4 d >>= λ v. id v.1 >>= λ w. some ((0, true), w.1))
    else some ((0, false), d)
