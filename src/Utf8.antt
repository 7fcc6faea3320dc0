-- ===== src/Utf8.antt =====
-- UTF-8 as Go reads it: utf8.ValidString, utf8.RuneCountInString and unicode.IsControl over the
-- bytes of a string.
use koinon.Base.{
  ℕ, ◌+◌, ◌-◌, ◌*◌, Bool, true, false, ◌&&◌, ◌||◌, Option, none, some, List, [], ◌∷◌, GoString,
  length, ltb, leb, ◌==◌, if◌then◌else◌,
}

-- Inside a sequence: the bytes still wanted, the range of the next one, the bits read so far.
pub record Pending : Type 0 where
  pub need : ℕ
  pub low : ℕ
  pub high : ℕ
  pub bits : ℕ

unfoldable pub pending : ℕ → ℕ → ℕ → ℕ → Option Pending
pending n l h b = some (record { need = n; low = l; high = h; bits = b })

-- the first byte of a sequence of two to four bytes
unfoldable pub lead : ℕ → Option Pending
unfolding pending
lead c =
    if leb 0xC2 c && leb c 0xDF
    then pending 1 0x80 0xBF (c - 0xC0)
    else if c == 0xE0
    then pending 2 0xA0 0xBF 0
    else if c == 0xED
    then pending 2 0x80 0x9F 0xD
    else if leb 0xE1 c && leb c 0xEF
    then pending 2 0x80 0xBF (c - 0xE0)
    else if c == 0xF0
    then pending 3 0x90 0xBF 0
    else if leb 0xF1 c && leb c 0xF3
    then pending 3 0x80 0xBF (c - 0xF0)
    else if c == 0xF4
    then pending 3 0x80 0x8F 4
    else none

pub data Read : Type 0 where
  bad : Read
  rune : ℕ → Read
  more : Pending → Read

unfoldable pub start : ℕ → Read
unfolding lead
start c = if ltb c 0x80 then rune c else elim (lead c) [ none ↦ bad | some p ↦ more p ]

unfoldable pub continue : Pending → ℕ → Read
continue p c =
    if leb p.low c && leb c p.high
    then (let b = p.bits * 64 + (c - 0x80) in
        if p.need == 1
        then rune b
        else more (record { need = p.need - 1; low = 0x80; high = 0xBF; bits = b }))
    else bad

unfoldable pub emit : ℕ → Option (List ℕ) → Option (List ℕ)
emit r none = none
emit r (some rs) = some (r ∷ rs)

unfoldable pub decode : Option Pending → GoString → Option (List ℕ)
unfolding start continue emit
decode none [] = some []
decode (some p) [] = none
decode none (c ∷ s) = elim (start c) [
  | bad ↦ none
  | rune r ↦ emit r (decode none s)
  | more p ↦ decode (some p) s
]
decode (some p) (c ∷ s) = elim (continue p c) [
  | bad ↦ none
  | rune r ↦ emit r (decode none s)
  | more q ↦ decode (some q) s
]

-- the code points of a valid string
unfoldable pub runes : GoString → Option (List ℕ)
unfolding decode
runes s = decode none s

-- utf8.ValidString
unfoldable pub valid_string : GoString → Bool
unfolding runes
valid_string s = elim (runes s) [ none ↦ false | some rs ↦ true ]

-- utf8.RuneCountInString, of a valid string
unfoldable pub rune_count : GoString → ℕ
unfolding runes
rune_count s = elim (runes s) [ none ↦ 0 | some rs ↦ length rs ]

-- unicode.IsControl: the category Cc
unfoldable pub is_control : ℕ → Bool
is_control r = ltb r 0x20 || leb 0x7F r && leb r 0x9F

unfoldable pub any_control : List ℕ → Bool
unfolding is_control
any_control [] = false
any_control (r ∷ rs) = is_control r || any_control rs

-- strings.IndexFunc(s, unicode.IsControl) >= 0, of a valid string
unfoldable pub has_control : GoString → Bool
unfolding runes any_control
has_control s = elim (runes s) [ none ↦ false | some rs ↦ any_control rs ]
