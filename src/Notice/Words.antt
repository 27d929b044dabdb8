-- ===== src/Notice/Words.antt =====
-- static/widget/widget.js: the texts of the messages for the user, as they stand there.
use website_ai_assistant.Prelude.{◌++◌}
use website_ai_assistant.Text.{Text, text}
use website_ai_assistant.Notice.{
  Notice, timed_out, stream_broken, service_down, check_message, unable, offline, access_blocked,
  blocked, contact_needed, not_saved, network_error, lead_saved, microphone_denied, speech_down,
  connected, said,
}

unfoldable pub words : Notice → Text
unfolding text
words (said s) = s
words timed_out =
    text "\u{67e}\u{627}\u{633}\u{62e}\u{200c}\u{62f}\u{647}\u{6cc} \u{628}\u{6cc}"
    ++ text "\u{634} \u{627}\u{632} \u{62d}\u{62f} \u{637}\u{648}\u{644} \u{6a9}"
    ++ text "\u{634}\u{6cc}\u{62f}. \u{644}\u{637}\u{641}\u{627}ً \u{62f}"
    ++ text "\u{648}\u{628}\u{627}\u{631}\u{647} \u{62a}\u{644}\u{627}\u{634} \u{6a9}"
    ++ text "\u{646}\u{6cc}\u{62f}."
words stream_broken =
    text "\u{62e}\u{637}\u{627} \u{62f}\u{631} \u{62f}\u{631}\u{6cc}\u{627}\u{641}"
    ++ text "\u{62a} \u{67e}\u{627}\u{633}\u{62e}."
words service_down =
    text "\u{633}\u{631}\u{648}\u{6cc}\u{633} \u{645}\u{648}\u{642}\u{62a}\u{627}"
    ++ text "ً \u{62f}\u{631} \u{62f}\u{633}\u{62a}\u{631}\u{633} \u{646}"
    ++ text "\u{6cc}\u{633}\u{62a}. \u{644}\u{637}\u{641}\u{627}ً \u{644}"
    ++ text "\u{62d}\u{638}\u{627}\u{62a}\u{6cc} \u{628}\u{639}\u{62f} \u{62f}\u{648}"
    ++ text "\u{628}\u{627}\u{631}\u{647} \u{62a}\u{644}\u{627}\u{634} \u{6a9}\u{646}"
    ++ text "\u{6cc}\u{62f}."
words check_message =
    text "\u{644}\u{637}\u{641}\u{627}ً \u{67e}\u{6cc}\u{627}\u{645} \u{62e}"
    ++ text "\u{648}\u{62f} \u{631}\u{627} \u{628}\u{631}\u{631}\u{633}\u{6cc} "
    ++ text "\u{648} \u{62f}\u{648}\u{628}\u{627}\u{631}\u{647} \u{627}\u{631}\u{633}"
    ++ text "\u{627}\u{644} \u{6a9}\u{646}\u{6cc}\u{62f}."
words unable =
    text "\u{645}\u{62a}\u{623}\u{633}\u{641}\u{627}\u{646}\u{647} \u{62f}\u{631} "
    ++ text "\u{62d}\u{627}\u{644} \u{62d}\u{627}\u{636}\u{631} \u{642}\u{627}\u{62f}"
    ++ text "\u{631} \u{628}\u{647} \u{67e}\u{627}\u{633}\u{62e}\u{6af}\u{648}\u{6cc}"
    ++ text "\u{6cc} \u{646}\u{6cc}\u{633}\u{62a}\u{645}. \u{644}\u{637}\u{641}"
    ++ text "\u{627}ً \u{62f}\u{648}\u{628}\u{627}\u{631}\u{647} \u{62a}\u{644}"
    ++ text "\u{627}\u{634} \u{6a9}\u{646}\u{6cc}\u{62f}."
words offline =
    text "\u{627}\u{62a}\u{635}\u{627}\u{644} \u{627}\u{6cc}\u{646}\u{62a}\u{631}"
    ++ text "\u{646}\u{62a} \u{642}\u{637}\u{639} \u{627}\u{633}\u{62a}. \u{628}"
    ++ text "\u{639}\u{62f} \u{627}\u{632} \u{648}\u{635}\u{644} \u{634}\u{62f}"
    ++ text "\u{646} \u{62f}\u{648}\u{628}\u{627}\u{631}\u{647} \u{62a}\u{644}\u{627}"
    ++ text "\u{634} \u{6a9}\u{646}\u{6cc}\u{62f}."
words access_blocked =
    text "\u{62f}\u{633}\u{62a}\u{631}\u{633}\u{6cc} \u{634}\u{645}\u{627} \u{645}"
    ++ text "\u{633}\u{62f}\u{648}\u{62f} \u{634}\u{62f}\u{647} \u{627}\u{633}\u{62a}"
    ++ text "."
words blocked =
    text "\u{62f}\u{633}\u{62a}\u{631}\u{633}\u{6cc} \u{634}\u{645}\u{627} \u{628}"
    ++ text "\u{647} \u{686}\u{62a} \u{645}\u{633}\u{62f}\u{648}\u{62f} \u{634}"
    ++ text "\u{62f}\u{647} \u{627}\u{633}\u{62a}."
words contact_needed =
    text "\u{628}\u{631}\u{627}\u{6cc} \u{62a}\u{645}\u{627}\u{633}، \u{62d}"
    ++ text "\u{62f}\u{627}\u{642}\u{644} \u{627}\u{6cc}\u{645}\u{6cc}\u{644} \u{6cc}"
    ++ text "\u{627} \u{634}\u{645}\u{627}\u{631}\u{647} \u{62a}\u{645}\u{627}\u{633}"
    ++ text " \u{631}\u{627} \u{648}\u{627}\u{631}\u{62f} \u{6a9}\u{646}\u{6cc}"
    ++ text "\u{62f}."
words not_saved =
    text "\u{62b}\u{628}\u{62a} \u{627}\u{637}\u{644}\u{627}\u{639}\u{627}\u{62a} "
    ++ text "\u{646}\u{627}\u{645}\u{648}\u{641}\u{642} \u{628}\u{648}\u{62f}. "
    ++ text "\u{644}\u{637}\u{641}\u{627}ً \u{62f}\u{648}\u{628}\u{627}\u{631}"
    ++ text "\u{647} \u{62a}\u{644}\u{627}\u{634} \u{6a9}\u{646}\u{6cc}\u{62f}."
words network_error =
    text "\u{62e}\u{637}\u{627}\u{6cc} \u{634}\u{628}\u{6a9}\u{647}. \u{644}"
    ++ text "\u{637}\u{641}\u{627}ً \u{627}\u{62a}\u{635}\u{627}\u{644} \u{627}"
    ++ text "\u{6cc}\u{646}\u{62a}\u{631}\u{646}\u{62a} \u{631}\u{627} \u{628}\u{631}"
    ++ text "\u{631}\u{633}\u{6cc} \u{648} \u{62f}\u{648}\u{628}\u{627}\u{631}\u{647}"
    ++ text " \u{62a}\u{644}\u{627}\u{634} \u{6a9}\u{646}\u{6cc}\u{62f}."
words lead_saved =
    text "\u{62f}\u{631}\u{62e}\u{648}\u{627}\u{633}\u{62a} \u{62a}\u{645}\u{627}"
    ++ text "\u{633} \u{634}\u{645}\u{627} \u{62b}\u{628}\u{62a} \u{634}\u{62f}. "
    ++ text "✓"
words microphone_denied =
    text "\u{62f}\u{633}\u{62a}\u{631}\u{633}\u{6cc} \u{628}\u{647} \u{645}\u{6cc}"
    ++ text "\u{6a9}\u{631}\u{648}\u{641}\u{648}\u{646} \u{62f}\u{627}\u{62f}\u{647} "
    ++ text "\u{646}\u{634}\u{62f}."
words speech_down =
    text "\u{633}\u{631}\u{648}\u{6cc}\u{633} \u{62a}\u{634}\u{62e}\u{6cc}\u{635} "
    ++ text "\u{6af}\u{641}\u{62a}\u{627}\u{631} \u{62f}\u{631} \u{62f}\u{633}\u{62a}"
    ++ text "\u{631}\u{633} \u{646}\u{6cc}\u{633}\u{62a}."
words connected =
    text "\u{627}\u{62a}\u{635}\u{627}\u{644} \u{627}\u{6cc}\u{646}\u{62a}\u{631}"
    ++ text "\u{646}\u{62a} \u{628}\u{631}\u{642}\u{631}\u{627}\u{631} \u{634}\u{62f}"
    ++ text "."
