-- ===== src/CString/Input.antt =====
-- Reading a line with fgets(3), and trimming it.
use ezstream.Prelude.{ℕ, zero, suc, [], ◌∷◌, ◌==◌, if◌then◌else◌}
use ezstream.CString.{Bytes, cut}

-- `fgets(buf, size, fp)` on what is left of the file: the bytes that it stores, up to a newline and
-- `size - 1` bytes at most, and the rest. `n` is the room that is left.
unfoldable pub fgets : ℕ → Bytes → Bytes × Bytes
fgets zero content = ([], content)
fgets (suc n) [] = ([], [])
fgets (suc n) (c ∷ content) =
    let (line, rest) = fgets n content in if c == b'\n' then (c ∷ [], content) else (c ∷ line, rest)

-- `buf[strcspn(buf, "\n")] = '\0'; buf[strcspn(buf, "\r")] = '\0';`
unfoldable pub trim : Bytes → Bytes
unfolding cut
trim buf = cut b'\r' (cut b'\n' buf)
