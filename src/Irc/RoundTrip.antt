-- ===== src/Irc/RoundTrip.antt =====
-- A line that the client writes, read by the parser of the same file.
use norelecbot.Base.{
  All, List, [], ap, append_assoc, arith, false, if◌then◌else◌, length, length-append, map, refl,
  some, suc, zero, ℕ, ◌&&◌, ◌++◌, ◌<◌, ◌==◌, ◌||◌, ◌∙◌, ◌∷◌, ◌≡◌, ◌≢◌, ◌≤◌,
}
use norelecbot.Irc.{
  command_line, parse, parse_command, parse_params, skip_spaces, space, starts_colon,
  strip_line_end, take_until_space, write_params, write_text,
}
use norelecbot.Text.{Text, is_empty, to_upper}

-- A command or a parameter: not empty, without a space, and not taken for the last text.
abbrev pub IsWord : Text → Type 0
IsWord w = (is_empty w ≡ false) × (starts_colon w ≡ false) × All (λ c. c ≢ space) w

strip_end : (a : Text) → strip_line_end (a ++ 13 ∷ 10 ∷ []) ≡ strip_line_end a
unfolding strip_line_end
strip_end [] = refl
strip_end (c ∷ a) = rw (strip_end a) refl

-- What ends as it stands keeps all that stands before it.
strip_keeps :
    (a b : Text) → is_empty b ≡ false → strip_line_end b ≡ b → strip_line_end (a ++ b) ≡ a ++ b
unfolding strip_line_end
strip_keeps [] b n e = e
strip_keeps (c ∷ a) b n e = rw (strip_keeps a b n e) (keep a)
  where
    keep :
        (a' : Text)
        → (if is_empty (a' ++ b) && (c == 13 || c == 10) then [] else c ∷ (a' ++ b)) ≡ c ∷ (a' ++ b)
    keep [] = rw n refl
    keep (x ∷ a') = refl

strip_text :
    (t : Text) → strip_line_end t ≡ t → strip_line_end (write_text (some t)) ≡ write_text (some t)
unfolding strip_line_end write_text
strip_text t e = rw e (ground arith)

take_word :
    (w s : Text) → All (λ c. c ≢ space) w → take_until_space (w ++ space ∷ s) ≡ (w, space ∷ s)
unfolding take_until_space
take_word [] s h = refl
take_word (c ∷ w) s (n, h) = rw (take_word w s h) (ground arith)

skip_word : (w s : Text) → IsWord w → skip_spaces (w ++ s) ≡ w ++ s
unfolding skip_spaces
skip_word [] s h = absurd (ground arith)
skip_word (c ∷ w) s (n, k, h) = ground arith

word_shape : (w s : Text) → IsWord w → (is_empty (w ++ s) ≡ false) × (starts_colon (w ++ s) ≡ false)
word_shape [] s h = absurd (ground arith)
word_shape (c ∷ w) s (n, k, h) = (refl, k)

-- What follows a parameter begins with its space.
rest_after : (params : List Text) (t : Text) → Text
rest_after [] t = b':' ∷ t
rest_after (q ∷ params) t = q ++ space ∷ rest_after params t

rest_after_lem :
    (params : List Text) (t : Text)
    → write_params params ++ write_text (some t) ≡ space ∷ rest_after params t
unfolding write_params write_text rest_after
rest_after_lem [] t = refl
rest_after_lem (q ∷ params) t =
    ap (λ s. space ∷ s)
      (append_assoc q (write_params params) (write_text (some t))
        ∙ ap (◌++◌ q) (rest_after_lem params t))

params_read :
    (fuel : ℕ) (params : List Text) (t : Text)
    → length params < fuel
    → All IsWord params
    → parse_params fuel (space ∷ rest_after params t) ≡ params ++ t ∷ []
unfolding parse_params rest_after skip_spaces
params_read zero params t h w = elim h [ ]
params_read (suc fuel) [] t h w = refl
params_read (suc fuel) (p ∷ params) t h (w, ws) =
    let more = space ∷ rest_after params t in
    rw
      (
        skip_word p more w,
        (word_shape p more w).0,
        (word_shape p more w).1,
        take_word p (rest_after params t) w.2,
      )
      (ap (◌∷◌ p) (params_read fuel params t (omega arith) ws))

long_enough : (params : List Text) (t : Text) → length params ≤ length (rest_after params t)
unfolding rest_after
long_enough [] t = omega arith
long_enough (p ∷ params) t =
    omega (arith, long_enough params t, length-append p (space ∷ rest_after params t))

line_shape :
    (command : Text) (params : List Text) (t : Text)
    → strip_line_end t ≡ t
    → strip_line_end (command_line command params (some t)) ≡ command ++ space ∷ rest_after params t
unfolding command_line write_text
line_shape command params t e =
    strip_end (command ++ write_params params ++ write_text (some t))
    ∙ strip_keeps (command ++ write_params params) (write_text (some t)) refl (strip_text t e)
    ∙ append_assoc command (write_params params) (write_text (some t))
    ∙ ap (◌++◌ command) (rest_after_lem params t)

-- A command and parameters that are words, with a last text that does not end in a line end, read
-- back as they were written, the command in capitals.
pub parse-command_line :
    (command : Text) (params : List Text) (t : Text)
    → IsWord command
    → All IsWord params
    → strip_line_end t ≡ t
    → parse (command_line command params (some t))
      ≡ some (record { prefix = []; command = map to_upper command; params = params ++ t ∷ [] })
unfolding parse parse_command
parse-command_line command params t w ws e =
    let rest = space ∷ rest_after params t in
    rw
      (
        line_shape command params t e,
        skip_word command rest w,
        (word_shape command rest w).1,
        take_word command (rest_after params t) w.2,
        w.0,
        params_read (suc (length rest)) params t (omega (arith, long_enough params t)) ws,
      )
      refl
