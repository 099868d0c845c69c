-- ===== src/Grep.antt =====
-- programs/grep.c: the matcher of regular expressions, as built with a C library.
-- A pointer into the text is the memory from it on, with the terminating NUL in its place: a pointer
-- that runs past the NUL sees what stands behind it in the buffer, and at the end of the memory a
-- read is undefined.
mod Samples
pub mod Search
pub mod Args
pub mod Patterns
pub mod Plain
pub mod Repeat
use punchcardos.Prelude.{
  ℕ, Bool, true, false, not, ◌&&◌, ◌||◌, Bytes, List, [], ◌∷◌, ◌==◌, if◌then◌else◌, is_prefix,
  is_alpha, is_alnum, to_lower, until_nul,
}
use punchcardos.Sys.{Outcome, returns, exits, undefined, out_of_fuel, exit_failure}

-- `char_class`: 0 or 'w'.
pub data CharClass : Type 0 where
  no_class word_class : CharClass

-- `match_char` on the byte that the pointer reads.
unfoldable pub match_char : Bool → CharClass → ℕ → ℕ → Bool
match_char caseign no_class c t =
    caseign && is_alpha c && to_lower c == to_lower t || c == t || c == b'.'
match_char caseign word_class c t = is_alnum t || t == b'_'

-- return char_class == 0
unfoldable pub ends : CharClass → Outcome Bool
ends no_class = returns true
ends word_class = returns false

-- if (first) return …; and what the code does otherwise.
abbrev pub or_else : Outcome Bool → Outcome Bool → Outcome Bool → Outcome Bool
or_else (returns true) found more = found
or_else (returns false) found more = more
or_else (exits n) found more = exits n
or_else undefined found more = undefined
or_else out_of_fuel found more = out_of_fuel

-- The loop of `matchstar`; `here` is the call `matchhere(re, ·, 0, flags)`.
unfoldable pub matchstar : Bool → (Bytes → Outcome Bool) → CharClass → ℕ → Bytes → Outcome Bool
unfolding match_char
matchstar caseign here class c [] = or_else (here []) (returns true) undefined
matchstar caseign here class c (t ∷ text) =
    or_else (here (t ∷ text)) (returns true) (elim (not (t == 0) && match_char caseign class c t) [
      | true ↦ matchstar caseign here class c text
      | false ↦ returns true
    ])

-- The loop of `matchplus`, with its variable `matched`.
unfoldable pub matchplus :
    Bool → (Bytes → Outcome Bool) → CharClass → ℕ → Bool → Bytes → Outcome Bool
unfolding match_char
matchplus caseign here class c matched [] = or_else (here []) (returns matched) undefined
matchplus caseign here class c matched (t ∷ text) =
    or_else (here (t ∷ text)) (returns matched)
      (elim (not (t == 0) && match_char caseign class c t) [
        | true ↦ matchplus caseign here class c true text
        | false ↦ returns false
      ])

-- if (match_char(…)) text++, and on with what follows the `?`.
optional : Bool → (Bytes → Outcome Bool) → CharClass → ℕ → Bytes → Outcome Bool
unfolding match_char
optional caseign here class c [] = undefined
optional caseign here class c (t ∷ text) = elim (match_char caseign class c t) [
  | true ↦ here text
  | false ↦ here (t ∷ text)
]

-- if (re[1] != *text) return IS_NOT_MATCH
escaped : (Bytes → Outcome Bool) → ℕ → Bytes → Outcome Bool
escaped here d [] = undefined
escaped here d (t ∷ text) = elim (d == t) [ true ↦ here text | false ↦ returns false ]

-- if (*text != '\0' && match_char(…))
literal : Bool → (Bytes → Outcome Bool) → CharClass → ℕ → Bytes → Outcome Bool
unfolding match_char
literal caseign here class c [] = undefined
literal caseign here class c (t ∷ text) = elim (not (t == 0) && match_char caseign class c t) [
  | true ↦ here text
  | false ↦ returns false
]

-- return *text == '\0'
at_line_end : Bytes → Outcome Bool
at_line_end [] = undefined
at_line_end (t ∷ text) = returns (t == 0)

abbrev is_escapable : ℕ → Bool
is_escapable d = d == b'.' || d == b'+' || d == b'?' || d == b'^' || d == b'$'

-- re[0] is a backslash: `next` goes on at re + 1, `here` at re + 2.
backslash :
    (CharClass → Bytes → Outcome Bool)
    → (CharClass → Bytes → Outcome Bool)
    → ℕ
    → Bytes
    → Outcome Bool
unfolding escaped
backslash next here d text = elim (d == b'w') [
  | true ↦ next word_class text
  | false ↦ elim (is_escapable d) [
    | true ↦ escaped (here no_class) d text
    | false ↦ exits exit_failure
  ]
]

-- What `matchhere` does with re[0] and re[1]: `next` goes on at re + 1, `here` at re + 2.
at_pair :
    Bool
    → (CharClass → Bytes → Outcome Bool)
    → (CharClass → Bytes → Outcome Bool)
    → ℕ
    → ℕ
    → CharClass
    → Bytes
    → Outcome Bool
unfolding matchstar matchplus optional backslash literal
at_pair caseign next here c d class text = elim (d == b'*') [
  | true ↦ matchstar caseign (here no_class) class c text
  | false ↦ elim (d == b'+') [
    | true ↦ matchplus caseign (here no_class) class c false text
    | false ↦ elim (d == b'?') [
      | true ↦ optional caseign (here no_class) class c text
      | false ↦ elim (c == b'\\') [
        | true ↦ backslash next here d text
        | false ↦ literal caseign (next no_class) class c text
      ]
    ]
  ]
]

-- The last character of the expression.
at_last : Bool → ℕ → CharClass → Bytes → Outcome Bool
unfolding literal ends at_line_end
at_last caseign c class text = elim (c == b'$') [
  | true ↦ at_line_end text
  | false ↦ elim (c == b'\\') [
    | true ↦ exits exit_failure
    | false ↦ literal caseign (λ rest. ends no_class) class c text
  ]
]

unfoldable pub matchhere : Bool → Bytes → CharClass → Bytes → Outcome Bool
unfolding ends at_last at_pair
matchhere caseign [] class text = ends class
matchhere caseign (c ∷ []) class text = at_last caseign c class text
matchhere caseign (c ∷ (d ∷ re)) class text =
    at_pair caseign (λ k t. matchhere caseign (d ∷ re) k t) (λ k t. matchhere caseign re k t) c d
      class text

-- do … while (*text++ != '\0')
unfoldable pub match_loop : Bool → Bytes → Bytes → Outcome Bool
unfolding matchhere
match_loop caseign re [] = or_else (matchhere caseign re no_class []) (returns true) undefined
match_loop caseign re (t ∷ text) =
    or_else (matchhere caseign re no_class (t ∷ text)) (returns true)
      (elim (t == 0) [ true ↦ returns false | false ↦ match_loop caseign re text ])

-- `strstr(text, pattern) != NULL`, and `strcasestr`.
unfoldable pub contains : Bytes → Bytes → Bool
unfolding is_prefix
contains pattern [] = is_prefix pattern []
contains pattern (t ∷ text) = is_prefix pattern (t ∷ text) || contains pattern text

unfoldable pub lowered : Bytes → Bytes
lowered [] = []
lowered (c ∷ s) = to_lower c ∷ lowered s

unfoldable pub match_fixed : Bool → Bytes → Bytes → Bool
unfolding contains lowered until_nul
match_fixed caseign pattern text =
    if caseign
    then contains (lowered pattern) (lowered (until_nul text))
    else contains pattern (until_nul text)

match_regex : Bool → Bytes → Bytes → Outcome Bool
unfolding match_loop matchhere
match_regex caseign [] text = match_loop caseign [] text
match_regex caseign (c ∷ re) text = elim (c == b'^') [
  | true ↦ matchhere caseign re no_class text
  | false ↦ match_loop caseign (c ∷ re) text
]

-- The flags that `match` looks at.
unfoldable pub match : Bool → Bool → Bytes → Bytes → Outcome Bool
unfolding match_regex match_fixed
match fixed caseign re text = elim fixed [
  | true ↦ returns (match_fixed caseign re text)
  | false ↦ match_regex caseign re text
]
