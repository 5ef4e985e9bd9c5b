-- ===== src/Notification/Copy/Grouped.antt =====
-- How an amount is written (formatVND of notification/internal/service.go).
use Prim.Native.Char.{Char}
use Prim.Native.String.{char_at}
use goshop_x.Base.{
  ap, true, false, ◌∙◌, String, List, [], ◌∷◌, ◌≡◌, ◌≤◌, ◌≢◌, refl, ◌%◌, arith, length,
}
use goshop_x.Notification.Copy.{starts_group, dotted, digit_count}

-- Three characters of the text.
abbrev pub Group : Type 0
Group = Char × Char × Char

abbrev pub spell : List Char → String → String
spell [] s = s
spell (c ∷ cs) s = String.◌∷◌ c (spell cs s)

abbrev pub flat : List Group → String
flat [] = String.[]
flat ((a, b, c) ∷ gs) = String.◌∷◌ a (String.◌∷◌ b (String.◌∷◌ c (flat gs)))

-- The same groups, each after a point.
abbrev pub pointed : List Group → String
pointed [] = String.[]
pointed ((a, b, c) ∷ gs) =
    String.◌∷◌ (char_at "." 0) (String.◌∷◌ a (String.◌∷◌ b (String.◌∷◌ c (pointed gs))))

-- The ends of a text at which a point stands, and those at which none does.
record Ends (s : String) : Type 0 where
  one : (c : Char) → starts_group (String.◌∷◌ c s) ≡ false
  two : (b c : Char) → starts_group (String.◌∷◌ b (String.◌∷◌ c s)) ≡ false
  three : (a b c : Char) → starts_group (String.◌∷◌ a (String.◌∷◌ b (String.◌∷◌ c s))) ≡ true

digit_count-flat : (gs : List Group) → digit_count (flat gs) % 3 ≡ 0
unfolding digit_count
digit_count-flat [] = refl
digit_count-flat ((a, b, c) ∷ gs) = let rest = digit_count-flat gs in omega arith

flat-Ends : (gs : List Group) → Ends (flat gs)
unfolding starts_group digit_count
flat-Ends gs =
    let threes = digit_count-flat gs in
    record { one = λ c. ground arith; two = λ b c. ground arith; three = λ a b c. ground arith }

dotted_cut :
    (c : Char) (s : String)
    → starts_group s ≡ true
    → dotted (String.◌∷◌ c s) ≡ String.◌∷◌ c (String.◌∷◌ (char_at "." 0) (dotted s))
unfolding dotted
dotted_cut c s h = rw h refl

dotted_whole :
    (c : Char) (s : String)
    → starts_group s ≡ false
    → dotted (String.◌∷◌ c s) ≡ String.◌∷◌ c (dotted s)
unfolding dotted
dotted_whole c s h = rw h refl

-- After one character, and after two.
tail_lem :
    (c : Char) (gs : List Group) → dotted (String.◌∷◌ c (flat gs)) ≡ String.◌∷◌ c (pointed gs)
unfolding dotted digit_count starts_group
tail_lem c [] = refl
tail_lem c ((a, b, d) ∷ gs) =
    let ends = flat-Ends gs in
    let rest = tail_lem d gs in
    let at_b = dotted_whole b (String.◌∷◌ d (flat gs)) (ends.one d) in
    let at_a = dotted_whole a (String.◌∷◌ b (String.◌∷◌ d (flat gs))) (ends.two b d) in
    dotted_cut c (flat ((a, b, d) ∷ gs)) (ends.three a b d)
    ∙ ap (λ s. String.◌∷◌ c (String.◌∷◌ (char_at "." 0) s))
        (at_a ∙ ap (String.◌∷◌ a) (at_b ∙ ap (String.◌∷◌ b) rest))

second_lem :
    (b c : Char) (gs : List Group)
    → dotted (String.◌∷◌ b (String.◌∷◌ c (flat gs))) ≡ String.◌∷◌ b (String.◌∷◌ c (pointed gs))
second_lem b c gs =
    dotted_whole b (String.◌∷◌ c (flat gs)) ((flat-Ends gs).one c)
    ∙ ap (String.◌∷◌ b) (tail_lem c gs)

-- The text of an amount is cut into groups of three from its end, with a point between two groups: one
-- to three characters come first, and every group of three after them stands behind a point.
pub dotted-flat :
    (h : List Char) (gs : List Group)
    → h ≢ []
    → length h ≤ 3
    → dotted (spell h (flat gs)) ≡ spell h (pointed gs)
dotted-flat [] gs some_char few = absurd (some_char refl)
dotted-flat (a ∷ []) gs some_char few = tail_lem a gs
dotted-flat (a ∷ b ∷ []) gs some_char few = second_lem a b gs
dotted-flat (a ∷ b ∷ c ∷ []) gs some_char few =
    dotted_whole a (String.◌∷◌ b (String.◌∷◌ c (flat gs))) ((flat-Ends gs).two b c)
    ∙ ap (String.◌∷◌ a) (second_lem b c gs)
dotted-flat (a ∷ b ∷ c ∷ d ∷ cs) gs some_char few = absurd (omega arith)
