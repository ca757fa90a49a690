-- ===== src/Io/Journal/Colour.antt =====
-- The colours in which a terminal shows the log.
use rc_plane.Base.{◌≡◌, ◌∙◌, refl, List, [], ◌∷◌, ◌++◌, String}
use mathlib.Core.List.{append_assoc}
use rc_plane.Io.Journal.{
  Severity, trace, debug, info, warning, error, fatal, Output, escape, text, LogRecord, colour_of,
  consume, heading, texts,
}

-- A terminal in a colour, which is the sequence that was sent last, shows each text in it.
abbrev show : String → List Output → List (String × String)
show colour [] = []
show colour (escape s ∷ outputs) = show s outputs
show colour (text s ∷ outputs) = (colour, s) ∷ show colour outputs

-- The sequence of a level: that of the default for the two without a colour.
abbrev colour_for : Severity → String
colour_for trace = "[38;5;241m"
colour_for debug = "[38;5;245m"
colour_for warning = "[38;5;184m"
colour_for error = "[38;5;196m"
colour_for info = "[0m"
colour_for fatal = "[0m"

abbrev in_colour : String → List String → List (String × String)
in_colour colour [] = []
in_colour colour (s ∷ ss) = (colour, s) ∷ in_colour colour ss

abbrev consume_all : List LogRecord → List Output
consume_all [] = []
consume_all (r ∷ rs) = consume r ++ consume_all rs

abbrev shown_records : List LogRecord → List (String × String)
shown_records [] = []
shown_records (r ∷ rs) =
    in_colour (colour_for r.severity) (heading r ++ r.message) ++ (("[0m", "\n") ∷ shown_records rs)

show-texts :
    (colour : String) (ss : List String) (rest : List Output)
    → show colour (texts ss ++ rest) ≡ in_colour colour ss ++ show colour rest
show-texts colour [] rest = refl
show-texts colour (s ∷ ss) rest = rw (show-texts colour ss rest) refl

show-colour_of :
    (level : Severity) (outputs rest : List Output)
    → show "[0m" ((colour_of level ++ outputs) ++ rest) ≡ show (colour_for level) (outputs ++ rest)
unfolding colour_of
show-colour_of trace outputs rest = refl
show-colour_of debug outputs rest = refl
show-colour_of info outputs rest = refl
show-colour_of warning outputs rest = refl
show-colour_of error outputs rest = refl
show-colour_of fatal outputs rest = refl

show-consume :
    (r : LogRecord) (rest : List Output)
    → show "[0m" (consume r ++ rest)
      ≡ in_colour (colour_for r.severity) (heading r ++ r.message)
        ++ (("[0m", "\n") ∷ show "[0m" rest)
unfolding consume
show-consume r rest =
    show-colour_of r.severity _ rest
    ∙ rw
        (
          append_assoc (texts r.message) (escape "[0m" ∷ text "\n" ∷ []) rest,
          show-texts (colour_for r.severity) r.message (escape "[0m" ∷ text "\n" ∷ rest),
        )
        refl

-- On a terminal in its default colour: any records in turn are shown each with its heading and its
-- message in the colour of its level, and with its end of line in the default colour.
show-consume_all : (rs : List LogRecord) → show "[0m" (consume_all rs) ≡ shown_records rs
show-consume_all [] = refl
show-consume_all (r ∷ rs) = rw (show-consume r (consume_all rs), show-consume_all rs) refl
