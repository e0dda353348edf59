-- ===== src/IrcSession/Said.antt =====
-- The lines that the bot says in the channel.
use norelecbot.Base.{
  All, All-implies, All-map, append-nil, arith, length, length-append, max, ◌+◌, ◌-◌, ◌<◌, ◌≡◌, ◌≤◌,
}
use norelecbot.Irc.{command_line, split_text, write_params, write_text}
use norelecbot.Irc.Lines.{IsLine, split_text-IsLine}
use norelecbot.IrcSession.{SessionConfig, max_text_bytes, quiet, sub_size}
use norelecbot.IrcSession.Speech.{announce, said_lines, say, say_line}
use norelecbot.Text.{Text, utf8}

length-line :
    (config : SessionConfig) (part : Text)
    → length (say_line config part)
      ≡ 12 + length config.channel + length config.no_forward_prefix + length part
unfolding say_line command_line write_params write_text utf8
length-line config part = grind (arith, length-append, append-nil)

module _ (config : SessionConfig) where
  -- With a channel of a hundred bytes at most and a mark for the bridge shorter than a text may be, every
  -- line that the bot says, whatever the text, is no longer than the 512 bytes that IRC allows.
  pub announce_fits :
      (text : Text)
      → length config.channel ≤ 100
      → length config.no_forward_prefix < max_text_bytes
      → All (λ l. length l ≤ 512) (announce config text)
  unfolding announce say quiet said_lines sub_size
  announce_fits text channel mark =
      let limit = sub_size max_text_bytes (length config.no_forward_prefix) in
      let exact : limit ≡ 400 - length config.no_forward_prefix = omega arith in
      All-map (λ l. length l ≤ 512) (say_line config) (split_text text limit)
        (All-implies (IsLine (max limit 1)) (λ part. length (say_line config part) ≤ 512)
          (split_text text limit) (λ part fits. ground (arith, length-line config part))
          (split_text-IsLine text limit))
