-- ===== src/Mdata/Songinfo.antt =====
-- src/mdata.c: the song info that is made of artist, title and album.
use ezstream.Prelude.{
  ℕ, ◌+◌, ◌-◌, ◌≤◌, ◌<◌, ◌≡◌, refl, sym, ap, ◌∙◌, Option, none, some, [], ◌∷◌, ◌++◌, append_assoc,
  arith, ◌==◌, if◌then◌else◌, length, length-append, take_all,
}
use ezstream.CString.{Bytes, strlcat}
use ezstream.CString.Copy.{strlcpy_fits, strlcat_fits}
use ezstream.Mdata.{Mdata, separator, size_with, add_part, first_part, generate_songinfo}

-- A part behind the parts before it, without a limit on the length.
unfoldable pub behind : Bytes → Option Bytes → Bytes
behind str none = str
behind [] (some part) = part
behind (c ∷ str) (some part) = (c ∷ str) ++ (separator ++ part)

unfoldable pub joined : Option Bytes → Option Bytes → Option Bytes → Bytes
unfolding behind
joined artist title album = behind (behind (behind [] artist) title) album

length-behind : (str : Bytes) (o : Option Bytes) → length (behind str o) ≡ size_with (length str) o
unfolding behind size_with
length-behind str none = refl
length-behind [] (some part) = omega arith
length-behind (c ∷ str) (some part) =
    ground (arith, length-append (c ∷ str) (separator ++ part), length-append separator part)

size_with-le : (n : ℕ) (o : Option Bytes) → n ≤ size_with n o
unfolding size_with
size_with-le n none = omega arith
size_with-le n (some part) = ground arith

with_separator :
    (size c : ℕ) (str part : Bytes)
    → size_with (length (c ∷ str)) (some part) < size
    → (length (c ∷ str) + length separator + length part < size)
      × ((if length (c ∷ str) == 0 then c ∷ str else strlcat (c ∷ str) separator size)
          ≡ (c ∷ str) ++ separator)
unfolding size_with
with_separator size c str part h =
    let room : length (c ∷ str) + length separator + length part < size = ground arith in
    (room, ground (arith, strlcat_fits (c ∷ str) separator size (omega arith)))

-- A part for which the buffer has room is appended whole.
add_part_fits :
    (size : ℕ) (str : Bytes) (o : Option Bytes)
    → size_with (length str) o < size
    → add_part size str o ≡ behind str o
unfolding add_part behind size_with
add_part_fits size str none h = refl
add_part_fits size [] (some part) h = take_all (size - 0 - 1) part (omega arith)
add_part_fits size (c ∷ str) (some part) h =
    let (room, inner) = with_separator size c str part h in
    ap (λ d. strlcat d part size) inner
    ∙ strlcat_fits ((c ∷ str) ++ separator) part size
        (omega (arith, length-append (c ∷ str) separator))
    ∙ append_assoc (c ∷ str) separator part

first_part_fits :
    (size : ℕ) (o : Option Bytes) → size_with 0 o < size → first_part size o ≡ behind [] o
unfolding first_part behind size_with
first_part_fits size none h = refl
first_part_fits size (some artist) h = strlcpy_fits artist size (omega arith)

length-joined :
    (a t b : Option Bytes) → length (joined a t b) ≡ size_with (size_with (size_with 0 a) t) b
unfolding joined
length-joined a t b =
    length-behind (behind (behind [] a) t) b
    ∙ ap (λ n. size_with n b)
        (length-behind (behind [] a) t ∙ ap (λ n. size_with n t) (length-behind [] a))

built :
    (a t b : Option Bytes) (size : ℕ)
    → size_with (size_with (size_with 0 a) t) b < size
    → add_part size (add_part size (first_part size a) t) b ≡ joined a t b
unfolding joined
built a t b size h =
    let one = size_with-le (size_with 0 a) t in
    let two = size_with-le (size_with (size_with 0 a) t) b in
    let length_one = length-behind [] a in
    let length_two = length-behind (behind [] a) t ∙ ap (λ n. size_with n t) length_one in
    ap (λ str. add_part size (add_part size str t) b) (first_part_fits size a (omega arith))
    ∙ ap (λ str. add_part size str b)
        (add_part_fits size (behind [] a) t (rw length_one (omega arith)))
    ∙ add_part_fits size (behind (behind [] a) t) b (rw length_two (omega arith))

abbrev unless_zero : ℕ → Bytes → Mdata → Mdata
unless_zero n str md = if n == 0 then md else record md { songinfo = some str }

-- `_mdata_generate_songinfo` leaves the metadata alone if artist, title and album are all missing
-- or empty. Otherwise the song info is what there is of the artist, the title and the album, in
-- this order, with ` - ` between a text and a part that follows it: the buffer that is allocated
-- never cuts it short.
pub generate_songinfo-joined :
    (md : Mdata)
    → generate_songinfo md ≡ (
        if length (joined md.artist md.title md.album) == 0
        then md
        else record md { songinfo = some (joined md.artist md.title md.album) })
unfolding generate_songinfo
generate_songinfo-joined md =
    let total = length-joined md.artist md.title md.album in
    let size = size_with (size_with (size_with 0 md.artist) md.title) md.album in
    ap (λ str. unless_zero size str md) (built md.artist md.title md.album (size + 1) (omega arith))
    ∙ ap (λ n. unless_zero n (joined md.artist md.title md.album) md) (sym total)
