-- ===== src/Ingestion/Lines.antt =====
-- `str::lines`, and the test for a blank line, as `bulk_handler` of src/ingestion/routes.rs uses them.
use edgewit.Prelude.{
  ℕ, ◌≢◌, ◌≡◌, refl, Bool, true, false, ◌&&◌, ◌||◌, List, [], ◌∷◌, ◌++◌, Text, leb, ◌==◌,
  if◌then◌else◌, All, arith,
}

-- A byte in front of the rest `cs`, whose lines are the `lines`; a CR in front of an LF falls away.
abbrev pub starts_with_newline : Text → Bool
starts_with_newline [] = false
starts_with_newline (c ∷ cs) = c == 10

abbrev pub push : ℕ → List Text → List Text
push c [] = (c ∷ []) ∷ []
push c (line ∷ lines) = (c ∷ line) ∷ lines

unfoldable pub lines_of : Text → List Text
lines_of [] = []
lines_of (c ∷ cs) =
    let rest = lines_of cs in
    if c == 10 then [] ∷ rest else if (c == 13) && starts_with_newline cs then rest else push c rest

-- The characters that `trim` takes off, by their bytes.
abbrev pub is_space : ℕ → Bool
is_space a = (leb 9 a && leb a 13) || (a == 32)

abbrev pub is_space_of_two : ℕ → ℕ → Bool
is_space_of_two a b = (a == 194) && ((b == 133) || (b == 160))

abbrev pub is_space_of_three : ℕ → ℕ → ℕ → Bool
is_space_of_three a b c =
    ((a == 225) && ((b == 154) && (c == 128)))
    || (((a == 226) && ((b == 128) && (leb c 138 || ((c == 168) || ((c == 169) || (c == 175))))))
        || (((a == 226) && ((b == 129) && (c == 159)))
            || ((a == 227) && ((b == 128) && (c == 128)))))

-- `line.trim().is_empty()`
unfoldable pub is_blank : Text → Bool
is_blank [] = true
is_blank (a ∷ []) = is_space a
is_blank (a ∷ b ∷ []) = (is_space a && is_space b) || is_space_of_two a b
is_blank (a ∷ b ∷ c ∷ cs) =
    (is_space a && is_blank (b ∷ c ∷ cs))
    || ((is_space_of_two a b && is_blank (c ∷ cs)) || (is_space_of_three a b c && is_blank cs))

-- `filter(|l| !l.trim().is_empty())`
unfoldable pub not_blank : List Text → List Text
not_blank [] = []
not_blank (l ∷ lines) = let rest = not_blank lines in if is_blank l then rest else l ∷ rest

-- What a client sends for a list of lines.
unfoldable pub body_of : List Text → Text
body_of [] = []
body_of (l ∷ lines) = l ++ (10 ∷ body_of lines)

-- A line of a body: it is not blank and has no line ends.
abbrev pub IsLine : Text → Type 0
IsLine l = All (λ c. (c ≢ 10) × (c ≢ 13)) l × (is_blank l ≡ false)

lines_of-append :
    (l rest : Text)
    → All (λ c. (c ≢ 10) × (c ≢ 13)) l
    → lines_of (l ++ (10 ∷ rest)) ≡ l ∷ lines_of rest
unfolding lines_of
lines_of-append [] rest h = refl
lines_of-append (c ∷ cs) rest ((n, r), h) = rw (lines_of-append cs rest h) (ground arith)

pub lines_of-body_of :
    (lines : List Text) → All IsLine lines → not_blank (lines_of (body_of lines)) ≡ lines
unfolding body_of not_blank
lines_of-body_of [] h = unfold lines_of in refl
lines_of-body_of (l ∷ lines) ((c, b), h) =
    rw (lines_of-append l (body_of lines) c, b, lines_of-body_of lines h) refl
