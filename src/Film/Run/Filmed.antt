-- ===== src/Film/Run/Filmed.antt =====
-- When the cast of a run is written.
use hexe.Prelude.{
  ℕ, suc, ◌+◌, ◌-◌, ◌≡◌, refl, inl, inr, Bool, true, false, Option, none, some, List, [], ◌∷◌, ◌++◌,
  Text, codes, arith, if◌then◌else◌, text_eq, Bool-cases,
}
use hexe.Film.{Bytes}
use hexe.Film.Keys.{keyspec}
use hexe.Film.Subst.{Names, subst}
use hexe.Film.Script.{Line, Settings, launch_of}
use hexe.Film.Run.{
  Act, send, sleep, resize, host, spawn, kill_front, roll, write_cast, cleanup, report, Part, done,
  dies, ahead, and_then, type_chars, type_text, words, sent_key, press_keys, move_mouse, waited,
  is_offstage, play, play_all, presh_acts, setup_acts, stage_acts, closing, at_exit, filming, run,
}

-- How often the cast is written.
abbrev pub casts : List Act → ℕ
casts [] = 0
casts (write_cast ∷ acts) = suc (casts acts)
casts (_ ∷ acts) = casts acts

abbrev pub acts_of : Part → List Act
acts_of (done acts) = acts
acts_of (dies acts) = acts

casts-append : (a b : List Act) → casts (a ++ b) ≡ casts a + casts b
casts-append [] b = omega arith
casts-append (write_cast ∷ a) b = omega (arith, casts-append a b)
casts-append (send x ∷ a) b = casts-append a b
casts-append (sleep x ∷ a) b = casts-append a b
casts-append (resize x ∷ a) b = casts-append a b
casts-append (host x y ∷ a) b = casts-append a b
casts-append (spawn x ∷ a) b = casts-append a b
casts-append (kill_front ∷ a) b = casts-append a b
casts-append (roll x ∷ a) b = casts-append a b
casts-append (cleanup ∷ a) b = casts-append a b
casts-append (report ∷ a) b = casts-append a b

-- The parts of a run that write no cast.
abbrev Quiet : Part → Type 0
Quiet p = casts (acts_of p) ≡ 0

Quiet-and_then : (p q : Part) → Quiet p → Quiet q → Quiet (and_then p q)
Quiet-and_then (done a) (done b) h k = omega (arith, casts-append a b)
Quiet-and_then (done a) (dies b) h k = omega (arith, casts-append a b)
Quiet-and_then (dies a) q h k = h

casts-type_text : (names : Names) (s : Settings) (t : Text) → casts (type_text names s t) ≡ 0
unfolding type_text
casts-type_text names s t = chars (subst names t)
  where
    chars : (u : Text) → casts (type_chars s.speed u) ≡ 0
    chars [] = refl
    chars (c ∷ u) = chars u

casts-typed :
    (names : Names) (s : Settings) (t : Text) (more : List Act)
    → casts more ≡ 0
    → casts (type_text names s t ++ more) ≡ 0
casts-typed names s t more h =
    omega (arith, casts-append (type_text names s t) more, casts-type_text names s t)

Quiet-press_keys : (specs : List Text) → Quiet (press_keys specs)
unfolding press_keys
Quiet-press_keys [] = refl
Quiet-press_keys (spec ∷ specs) =
    Quiet-and_then (sent_key (keyspec spec)) (press_keys specs) (key _) (Quiet-press_keys specs)
  where
    key : (o : Option Bytes) → Quiet (sent_key o)
    key none = refl
    key (some b) = refl

Quiet-move_mouse : (parts : List Text) → Quiet (move_mouse parts)
unfolding move_mouse
Quiet-move_mouse parts = ground arith

Quiet-waited : (o : Option ℕ) → Quiet (waited o)
Quiet-waited none = refl
Quiet-waited (some ms) = refl

Quiet-if : (b : Bool) (p q : Part) → Quiet p → Quiet q → Quiet (if b then p else q)
Quiet-if true p q h k = h
Quiet-if false p q h k = k

Quiet-play : (names : Names) (s : Settings) (l : Line) → Quiet (play names s l)
unfolding play
Quiet-play names s l = Quiet-if (is_offstage l) _ _ refl (
    Quiet-if (text_eq l.verb (codes "run")) _ _ (casts-typed names s l.rest _ refl) (
      Quiet-if (text_eq l.verb (codes "type")) _ _ (casts-type_text names s l.rest) (
        Quiet-if (text_eq l.verb (codes "key")) _ _ (Quiet-press_keys (words l.rest)) (
          Quiet-if (text_eq l.verb (codes "mouse")) _ _ (Quiet-move_mouse (words l.rest)) (
            Quiet-if (text_eq l.verb (codes "wait")) _ _ (Quiet-waited _) (
              Quiet-if (text_eq l.verb (codes "clear")) _ _
                (casts-typed names s (codes "clear") _ refl)
                (Quiet-if (text_eq l.verb (codes "sh")) _ _ refl (
                  Quiet-if (text_eq l.verb (codes "bg")) _ _ refl (
                    Quiet-if (text_eq l.verb (codes "crash")) _ _ refl
                      (Quiet-if (text_eq l.verb (codes "spawn")) _ _ refl refl))))))))))

Quiet-play_all : (names : Names) (s : Settings) (ls : List Line) → Quiet (play_all names s ls)
unfolding play_all
Quiet-play_all names s [] = refl
Quiet-play_all names s (l ∷ ls) =
    Quiet-and_then (play names s l) (play_all names s ls) (Quiet-play names s l)
      (Quiet-play_all names s ls)

casts-presh_acts : (names : Names) (ls : List Line) → casts (presh_acts names ls) ≡ 0
unfolding presh_acts
casts-presh_acts names [] = refl
casts-presh_acts names (l ∷ ls) = elim (Bool-cases (text_eq l.verb (codes "presh"))) [
  | inl is ↦ rw is (casts-presh_acts names ls)
  | inr isnt ↦ rw isnt (casts-presh_acts names ls)
]

casts-setup_acts :
    (names : Names) (s : Settings) (ls : List Line) → casts (setup_acts names s ls) ≡ 0
unfolding setup_acts
casts-setup_acts names s [] = refl
casts-setup_acts names s (l ∷ ls) = elim (Bool-cases (text_eq l.verb (codes "setup"))) [
  | inl is ↦ rw is (casts-typed names s (b' ' ∷ l.rest) _ (casts-setup_acts names s ls))
  | inr isnt ↦ rw isnt (casts-setup_acts names s ls)
]

casts-stage_acts :
    (names : Names) (slug : Text) (s : Settings) → casts (stage_acts names slug s) ≡ 0
unfolding stage_acts
casts-stage_acts names slug s = omega (
  arith,
  casts-append (presh_acts names s.lines) (
      spawn (subst names (launch_of slug s))
      ∷ sleep 4000
      ∷ (setup_acts names s s.lines
          ++ (type_text names s (codes " clear")
              ++ (send (13 ∷ []) ∷ sleep 1000 ∷ resize (s.rows - 1) ∷ sleep 900 ∷ [])))),
  casts-append (setup_acts names s s.lines) (
      type_text names s (codes " clear")
      ++ (send (13 ∷ []) ∷ sleep 1000 ∷ resize (s.rows - 1) ∷ sleep 900 ∷ [])),
  casts-presh_acts names s.lines,
  casts-setup_acts names s s.lines,
  casts-typed names s (codes " clear")
      (send (13 ∷ []) ∷ sleep 1000 ∷ resize (s.rows - 1) ∷ sleep 900 ∷ []) refl,
)

-- A part that was carried out counts one, a part that an exception ended none.
abbrev pub done_count : Part → ℕ
done_count (done acts) = 1
done_count (dies acts) = 0

casts-closed :
    (stage : List Act) (rows : ℕ) (film : Part)
    → casts stage ≡ 0
    → Quiet film
    → casts (
        at_exit (
          ahead stage
            (ahead (roll true ∷ resize rows ∷ sleep 1200 ∷ []) (and_then film (done closing)))))
      ≡ done_count film
casts-closed stage rows (done acts) h k = omega (
  arith,
  casts-append (stage ++ (roll true ∷ resize rows ∷ sleep 1200 ∷ (acts ++ closing))) (cleanup ∷ []),
  casts-append stage (roll true ∷ resize rows ∷ sleep 1200 ∷ (acts ++ closing)),
  casts-append acts closing,
)
casts-closed stage rows (dies acts) h k = omega (
  arith,
  casts-append (stage ++ (roll true ∷ resize rows ∷ sleep 1200 ∷ acts)) (cleanup ∷ []),
  casts-append stage (roll true ∷ resize rows ∷ sleep 1200 ∷ acts),
)

-- Where the binary, the fixture and the shell are there, the cast is written exactly once if
-- every line of the film is carried out, and never if one of them ends the run.
pub casts-run :
    (names : Names) (slug : Text) (s : Settings)
    → casts (run true names slug s) ≡ done_count (play_all names s s.lines)
unfolding run filming
casts-run names slug s =
    casts-closed (stage_acts names slug s) s.rows (play_all names s s.lines)
      (casts-stage_acts names slug s) (Quiet-play_all names s s.lines)
