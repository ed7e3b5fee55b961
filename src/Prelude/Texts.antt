-- ===== src/Prelude/Texts.antt =====
-- The functions of Go's package strings that the program calls, on texts measured in bytes.
use go_key_pool_system.Prelude.{
  ◌+◌, ◌-◌, String, Bool, Option, none, some, leb, if◌then◌else◌, str_eq, ◌&&◌,
}
use Prim.Native.String.{len, slice}
use text.Mathlib.Text.{starts_with, find?}

-- strings.TrimPrefix
unfoldable pub trim_prefix : String → String → String
trim_prefix s prefix = if starts_with s prefix then slice s (len prefix) (len s) else s

-- strings.HasSuffix
unfoldable pub has_suffix : String → String → Bool
has_suffix s suffix =
    leb (len suffix) (len s) && str_eq (slice s (len s - len suffix) (len s)) suffix

-- s[:strings.Index(s, sep)], or the whole of s.
unfoldable pub before_first : String → String → String
before_first s sep = elim (find? s sep) [ none ↦ s | some i ↦ slice s 0 i ]

-- strings.SplitN(s, sep, 2): the two parts, or nothing where there is one only.
unfoldable pub split_two : String → String → Option (String × String)
split_two s sep = elim (find? s sep) [
  | none ↦ none
  | some i ↦ some (slice s 0 i, slice s (i + len sep) (len s))
]

-- strings.TrimSuffix
unfoldable pub trim_suffix : String → String → String
trim_suffix s suffix = if has_suffix s suffix then slice s 0 (len s - len suffix) else s
