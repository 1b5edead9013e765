-- ===== src/DefFile/Shell/Word.antt =====
-- The shell words that `decode_shell_argument` accepts, and what it makes of them.
use hermetic_llvm.DefFile.NmOutput.Line.{all_space}
use hermetic_llvm.DefFile.Shell.{
  Quote, shell_loop, Shell, shell_step, unquoted, escape, single, next, double, push, step_in,
  initial, step_word, shell_end, decode_shell_argument, failed, argument, multiple_arguments,
  empty_entry,
}
use hermetic_llvm.Bytes.{isspace, Bytes, is_empty}
use hermetic_llvm.Prelude.{
  ℕ, ◌≡◌, refl, sym, ap, ◌∙◌, ◌≢◌, Bool, true, false, not, ◌&&◌, ◌||◌, [], ◌∷◌, ◌++◌, append-nil,
  append_assoc, arith, ◌==◌,
}

-- An unquoted byte that stands for itself.
abbrev pub is_plain : ℕ → Bool
is_plain c = not (isspace c) && not (c == b'\'') && not (c == b'"') && not (c == b'\\')

-- `Word q text arg`: `text`, read from inside the quote `q`, ends a word and spells `arg`.
pub data Word : Quote → Bytes → Bytes → Type 0 where
  done : Word unquoted [] []
  plain :
      {t a : Bytes} (c : ℕ) → is_plain c ≡ true → Word unquoted t a → Word unquoted (c ∷ t) (c ∷ a)
  escaped : {t a : Bytes} (c : ℕ) → Word unquoted t a → Word unquoted (b'\\' ∷ c ∷ t) (c ∷ a)
  open_single : {t a : Bytes} → Word single t a → Word unquoted (b'\'' ∷ t) a
  in_single : {t a : Bytes} (c : ℕ) → c ≢ b'\'' → Word single t a → Word single (c ∷ t) (c ∷ a)
  close_single : {t a : Bytes} → Word unquoted t a → Word single (b'\'' ∷ t) a
  open_double : {t a : Bytes} → Word double t a → Word unquoted (b'"' ∷ t) a
  in_double :
      {t a : Bytes} (c : ℕ) → c ≢ b'"' → c ≢ b'\\' → Word double t a → Word double (c ∷ t) (c ∷ a)
  escaped_double : {t a : Bytes} (c : ℕ) → Word double t a → Word double (b'\\' ∷ c ∷ t) (c ∷ a)
  close_double : {t a : Bytes} → Word unquoted t a → Word double (b'"' ∷ t) a

-- One byte that the loop passes, and one that it copies behind a backslash.
loop-next :
    (s s' : Shell) (c : ℕ) (rest : Bytes)
    → shell_step s c ≡ next s'
    → shell_loop s (c ∷ rest) ≡ shell_loop s' rest
unfolding shell_loop
loop-next s s' c [] e = rw (e, shell_loop) refl
loop-next s s' c (d ∷ rest) e = rw (e, shell_loop) refl

loop-escape :
    (s s' : Shell) (c d : ℕ) (rest : Bytes)
    → shell_step s c ≡ escape s'
    → shell_loop s (c ∷ d ∷ rest) ≡ shell_loop (push s' d) rest
unfolding shell_loop
loop-escape s s' c d rest e = rw (e, shell_loop) refl

-- The state inside a word.
abbrev inside : Quote → Bool → Bytes → Shell
inside q begun output = record { quote = q; started = begun; separated = false; output = output }

-- Inside a word the loop copies one byte, and one that stands behind a backslash.
copy :
    (q : Quote) (c : ℕ) (out a t rest : Bytes)
    → shell_step (inside q true out) c ≡ next (push (inside q true out) c)
    → shell_loop (inside q true (out ++ c ∷ [])) (t ++ rest)
      ≡ shell_loop (inside unquoted true ((out ++ c ∷ []) ++ a)) rest
    → shell_loop (inside q true out) (c ∷ (t ++ rest))
      ≡ shell_loop (inside unquoted true (out ++ c ∷ a)) rest
copy q c out a t rest e ih =
    loop-next (inside q true out) (push (inside q true out) c) c (t ++ rest) e
    ∙ ih
    ∙ ap (λ (o : Bytes). shell_loop (inside unquoted true o) rest) (append_assoc out (c ∷ []) a)

copy_escaped :
    (q : Quote) (c : ℕ) (out a t rest : Bytes)
    → shell_step (inside q true out) b'\\' ≡ escape (inside q true out)
    → shell_loop (inside q true (out ++ c ∷ [])) (t ++ rest)
      ≡ shell_loop (inside unquoted true ((out ++ c ∷ []) ++ a)) rest
    → shell_loop (inside q true out) (b'\\' ∷ c ∷ (t ++ rest))
      ≡ shell_loop (inside unquoted true (out ++ c ∷ a)) rest
copy_escaped q c out a t rest e ih =
    loop-escape (inside q true out) (inside q true out) b'\\' c (t ++ rest) e
    ∙ ih
    ∙ ap (λ (o : Bytes). shell_loop (inside unquoted true o) rest) (append_assoc out (c ∷ []) a)

step_plain :
    (out : Bytes) (c : ℕ)
    → is_plain c ≡ true
    → shell_step (inside unquoted true out) c ≡ next (push (inside unquoted true out) c)
unfolding step_in step_word
step_plain out c p = ground arith

step_single :
    (out : Bytes) (c : ℕ)
    → c ≢ b'\''
    → shell_step (inside single true out) c ≡ next (push (inside single true out) c)
unfolding step_in
step_single out c p = ground arith

step_double :
    (out : Bytes) (c : ℕ)
    → c ≢ b'"'
    → c ≢ b'\\'
    → shell_step (inside double true out) c ≡ next (push (inside double true out) c)
unfolding step_in
step_double out c p r = ground arith

-- The loop passes a word and adds what it spells.
loop-Word :
    {q : Quote} {t a : Bytes} (out rest : Bytes)
    → Word q t a
    → shell_loop (inside q true out) (t ++ rest) ≡ shell_loop (inside unquoted true (out ++ a)) rest
unfolding step_in step_word isspace
loop-Word out rest done = rw append-nil
loop-Word out rest (plain {t} {a} c p w) =
    copy unquoted c out a t rest (step_plain out c p) (loop-Word (out ++ c ∷ []) rest w)
loop-Word out rest (escaped {t} {a} c w) =
    copy_escaped unquoted c out a t rest refl (loop-Word (out ++ c ∷ []) rest w)
loop-Word out rest (open_single {t} w) =
    loop-next _ (inside single true out) b'\'' (t ++ rest) refl ∙ loop-Word out rest w
loop-Word out rest (in_single {t} {a} c p w) =
    copy single c out a t rest (step_single out c p) (loop-Word (out ++ c ∷ []) rest w)
loop-Word out rest (close_single {t} w) =
    loop-next _ (inside unquoted true out) b'\'' (t ++ rest) refl ∙ loop-Word out rest w
loop-Word out rest (open_double {t} w) =
    loop-next _ (inside double true out) b'"' (t ++ rest) refl ∙ loop-Word out rest w
loop-Word out rest (in_double {t} {a} c p r w) =
    copy double c out a t rest (step_double out c p r) (loop-Word (out ++ c ∷ []) rest w)
loop-Word out rest (escaped_double {t} {a} c w) =
    copy_escaped double c out a t rest refl (loop-Word (out ++ c ∷ []) rest w)
loop-Word out rest (close_double {t} w) =
    loop-next _ (inside unquoted true out) b'"' (t ++ rest) refl ∙ loop-Word out rest w

loop_congr :
    (s s' : Shell) (c : ℕ) (rest : Bytes)
    → shell_step s c ≡ shell_step s' c
    → shell_loop s (c ∷ rest) ≡ shell_loop s' (c ∷ rest)
unfolding shell_loop
loop_congr s s' c [] e = rw (e, shell_loop) refl
loop_congr s s' c (d ∷ rest) e = rw (e, shell_loop) refl

begin :
    (c : ℕ) (rest : Bytes)
    → isspace c ≡ false
    → shell_loop initial (c ∷ rest) ≡ shell_loop (inside unquoted true []) (c ∷ rest)
unfolding step_in step_word
begin c rest h = loop_congr initial (inside unquoted true []) c rest (ground arith)

-- The first byte of a word is no white space, and starts it.
begin-Word :
    {t a : Bytes} (rest : Bytes)
    → Word unquoted t a
    → t ≢ []
    → shell_loop initial (t ++ rest) ≡ shell_loop (inside unquoted true a) rest
unfolding isspace
begin-Word rest done h = absurd (h refl)
begin-Word rest (plain {t} c p w) h =
    begin c (t ++ rest) (ground arith) ∙ loop-Word [] rest (plain c p w)
begin-Word rest (escaped {t} c w) h =
    begin b'\\' (c ∷ (t ++ rest)) refl ∙ loop-Word [] rest (escaped c w)
begin-Word rest (open_single {t} w) h =
    begin b'\'' (t ++ rest) refl ∙ loop-Word [] rest (open_single w)
begin-Word rest (open_double {t} w) h =
    begin b'"' (t ++ rest) refl ∙ loop-Word [] rest (open_double w)

-- White space before a word changes nothing.
lead_space :
    (space rest : Bytes)
    → all_space space ≡ true
    → shell_loop initial (space ++ rest) ≡ shell_loop initial rest
lead_space [] rest h = refl
lead_space (c ∷ space) rest h =
    loop-next initial initial c (space ++ rest) (unfold step_in in ground arith)
    ∙ lead_space space rest (ground arith)

-- The state behind a word: white space there is noted.
abbrev behind : Bool → Bytes → Shell
behind gap output = record { quote = unquoted; started = true; separated = gap; output = output }

trail_space :
    (space rest : Bytes) (gap : Bool) (a : Bytes)
    → all_space space ≡ true
    → shell_loop (behind gap a) (space ++ rest)
      ≡ shell_loop (behind (gap || not (is_empty space)) a) rest
trail_space [] rest gap a h = ap (λ (g : Bool). shell_loop (behind g a) rest) (ground arith)
trail_space (c ∷ space) rest gap a h =
    loop-next (behind gap a) (behind true a) c (space ++ rest) (unfold step_in in ground arith)
    ∙ trail_space space rest true a (ground arith)
    ∙ ap (λ (g : Bool). shell_loop (behind g a) rest) (ground arith)

second_word :
    (c : ℕ) (rest a : Bytes)
    → isspace c ≡ false
    → shell_loop (behind true a) (c ∷ rest) ≡ failed multiple_arguments
unfolding shell_loop step_in step_word
second_word c [] a h = ground arith
second_word c (d ∷ rest) a h = ground arith

shell_loop_nil : (s : Shell) → shell_loop s [] ≡ shell_end s
unfolding shell_loop
shell_loop_nil s = refl

-- `decode_shell_argument` takes one nonempty word, with white space around it, to what the word
-- spells; it fails with `multiple_arguments` where a further byte follows the white space, and
-- with `empty_entry` on white space alone.
pub decode_shell_argument_lem :
    {word a : Bytes} (lead trail : Bytes)
    → Word unquoted word a
    → word ≢ []
    → all_space lead ≡ true
    → all_space trail ≡ true
    → (decode_shell_argument (lead ++ (word ++ trail)) ≡ argument a)
      × ((c : ℕ) (rest : Bytes)
          → isspace c ≡ false
          → trail ≢ []
          → decode_shell_argument (lead ++ (word ++ (trail ++ c ∷ rest)))
            ≡ failed multiple_arguments)
      × (decode_shell_argument lead ≡ failed empty_entry)
unfolding decode_shell_argument
decode_shell_argument_lem {word} {a} lead trail w h p q = (
  lead_space lead (word ++ trail) p
      ∙ begin-Word trail w h
      ∙ ap (shell_loop (behind false a)) (sym (append-nil trail))
      ∙ trail_space trail [] false a q
      ∙ shell_loop_nil (behind (false || not (is_empty trail)) a),
  λ c rest s ne.
      lead_space lead (word ++ (trail ++ c ∷ rest)) p
      ∙ begin-Word (trail ++ c ∷ rest) w h
      ∙ trail_space trail (c ∷ rest) false a q
      ∙ ap (λ (g : Bool). shell_loop (behind g a) (c ∷ rest)) (ground arith)
      ∙ second_word c rest a s,
  ap (shell_loop initial) (sym (append-nil lead)) ∙ lead_space lead [] p ∙ shell_loop_nil initial,
)
