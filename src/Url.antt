-- ===== src/Url.antt =====
-- bjoern/common.c: percent-decoding of a path in place. The buffer is a list of bytes, and the
-- pointers `url`, `p` and `end` are indices into it. A C char and the byte that it holds are not
-- told apart: the tests of `UNHEX` fail on every byte above 127, as they do on a negative char.
pub mod Decode
pub mod InPlace
pub mod Laws
mod Tests
use bjoern.Common.{
  ℕ, zero, suc, ◌+◌, ◌-◌, ◌*◌, Option, none, some, ◌&&◌, true, false, Bytes, leb, ◌==◌, get_or, set,
  length, if◌then◌else◌,
}

-- `UNHEX`; `NOHEX` is `none`.
unfoldable pub unhex : ℕ → Option ℕ
unhex c =
    if leb b'0' c && leb c b'9'
    then some (c - b'0')
    else if leb b'a' c && leb c b'f'
    then some (c - b'a' + 10)
    else if leb b'A' c && leb c b'F'
    then some (c - b'A' + 10)
    else none

-- The loop: `fuel`, the buffer, `p`, `url`, `end`, `len`. The test `url >= end-2` is written as a
-- sum, since a subtraction of naturals stops at 0.
unfoldable pub unquote_loop : ℕ → Bytes → ℕ → ℕ → ℕ → ℕ → ℕ × Bytes
unquote_loop zero buf p url end len = (len, buf)
unquote_loop (suc fuel) buf p url end len = elim (url == end) [
  | true ↦ (len, buf)
  | false ↦ elim (get_or buf url 0 == b'%') [
    | true ↦ elim (leb end (url + 2)) [
      | true ↦ (0, buf)
      | false ↦ elim (unhex (get_or buf (url + 1) 0)) [
        | none ↦ (0, buf)
        | some a ↦ elim (unhex (get_or buf (url + 2) 0)) [
          | none ↦ (0, buf)
          | some b ↦ unquote_loop fuel (set buf p (a * 16 + b)) (p + 1) (url + 3) end (len - 2)
        ]
      ]
    ]
    | false ↦ unquote_loop fuel (set buf p (get_or buf url 0)) (p + 1) (url + 1) end len
  ]
]

-- The new length, 0 for an error, and the buffer. Each round moves `url` on, so the test of
-- the loop is made at most once more than the buffer has bytes.
unfoldable pub unquote_url_inplace : Bytes → ℕ × Bytes
unfolding unquote_loop
unquote_url_inplace url = unquote_loop (suc (length url)) url 0 0 (length url) (length url)
