-- ===== src/Util/Tests.antt =====
-- src/util.c on concrete inputs.
use ezstream.Prelude.{
  ℕ, suc, ◌+◌, ◌≤◌, ◌<◌, ◌≡◌, refl, ap, ◌≢◌, ◌⊎◌, inr, some, List, [], ◌∷◌, arith, length, take,
}
use ezstream.CString.{Bytes, codes, str_eq}
use ezstream.Util.{
  util_strrcmp, util_strrcasecmp, Entry, util_expand_words, quote, outlen_limit, util_shellquote,
}
use ezstream.Util.Shell.{
  quoted_length, sh_word, sh_word-util_shellquote, length-util_shellquote_one, outside,
}
use ezstream.Util.Expand.{expand}
use ezstream.Util.Expand.Loop.{util_expand_words-eq-expand}
use ezstream.Util.Expand.Template.{IsTable, entry_of, Piece, render, fill, byte, mark}
use ezstream.Util.Expand.Values.{util_expand_words-render_quoted}

-- `it's`
abbrev its : Bytes
its = b'i' ∷ b't' ∷ quote ∷ b's' ∷ []

quotes_escaped : util_shellquote its 0 ≡ codes "'it'\\''s'"
unfolding util_shellquote
quotes_escaped = refl

quoted_cut : util_shellquote its 5 ≡ codes "'it'"
unfolding util_shellquote
quoted_cut = refl

util_strrcmp_suffix : util_strrcmp (codes "song.ogg") (codes ".ogg") ≡ 0
unfolding util_strrcmp
util_strrcmp_suffix = refl

util_strrcasecmp_suffix : util_strrcasecmp (codes "SONG.OgG") (codes ".ogg") ≡ 0
unfolding util_strrcasecmp
util_strrcasecmp_suffix = refl

-- The command placeholders, quoted and not.
abbrev entries : Bytes → Bytes → List Entry
entries track artist =
    record { from = codes "@T@"; to = track } ∷ record { from = codes "@a@"; to = artist } ∷ []

util_expand_words_cmd :
    util_expand_words (codes "dec @T@ -a @a@") (entries (codes "'x'") (codes "'@T@'"))
    ≡ some (codes "dec 'x' -a '@T@'")
unfolding util_expand_words
util_expand_words_cmd = refl

-- A value that is not quoted completes a placeholder together with the format around it.
util_expand_words_again :
    util_expand_words (codes "@@a@") (entries (codes "x") (codes "T@")) ≡ some (codes "x")
unfolding util_expand_words
util_expand_words_again = refl

-- `-@a@`
abbrev pieces : List Piece
pieces = byte b'-' ∷ mark b'a' ∷ []

abbrev table : (track artist : Bytes) → IsTable (entries track artist)
table track artist =
    ((b'T', refl, omega arith, omega arith), ((b'a', refl, omega arith, omega arith), tt))

sh_word-util_shellquote_example :
    (k : ℕ) × (sh_word outside (util_shellquote its 5) ≡ some (take k its))
    × ((k ≡ length its)
        ⊎ (k < length its) × (outlen_limit 5 < quoted_length (take (suc k) its) + 2))
    × ((k ≡ 0) ⊎ (quoted_length (take k its) + 2 ≤ outlen_limit 5))
sh_word-util_shellquote_example = sh_word-util_shellquote its 5

length-util_shellquote_one_example : length (util_shellquote its 1) ≡ outlen_limit 1 + 1
length-util_shellquote_one_example = length-util_shellquote_one its

util_expand_words-eq-expand_example :
    util_expand_words (codes "-@a@") (entries [] its)
    ≡ some (expand (entries [] its) (codes "-@a@"))
util_expand_words-eq-expand_example = util_expand_words-eq-expand (codes "-@a@") (entries [] its)

render-pieces : render pieces ≢ []
unfolding render
render-pieces e = omega (arith, ap length e)

util_expand_words-render_quoted_example :
    util_expand_words (render pieces) (entries [] (codes "'@T@'"))
    ≡ some (fill (entries [] (codes "'@T@'")) pieces)
unfolding str_eq
util_expand_words-render_quoted_example =
    util_expand_words-render_quoted (entries [] (codes "'@T@'")) pieces (table [] (codes "'@T@'"))
      (unfold entry_of in
        (
          omega arith,
          ((record { from = codes "@a@"; to = codes "'@T@'" }, refl, inr (codes "@T@'", refl)), tt),
        ))
      render-pieces
