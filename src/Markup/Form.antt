-- ===== src/Markup/Form.antt =====
-- static/widget/widget.js, `buildContactForm`: the HTML of the form. `uid` stands in it as it is.
use website_ai_assistant.Prelude.{Bool, List, [], ◌∷◌, ◌++◌, if◌then◌else◌, suc, ℕ}
use website_ai_assistant.Text.{Text, text}
use website_ai_assistant.Text.Decimal.{decimal}
use website_ai_assistant.Markup.{Symbol, put, fixed, template, render}
use website_ai_assistant.Markup.Icons.{icon_info}
use website_ai_assistant.Markup.Front.{Shell}

abbrev pub icon_send : Text
icon_send =
    text
      "<svg viewBox=\"0 0 24 24\" fill=\"none\" stroke=\"currentColor\" stroke-width=\"2\" stroke-linecap=\"round\" stroke-linejoin=\"round\"><path d=\"M22 2L11 13\"/><path d=\"M22 2L15 22L11 13L2 9L22 2Z\"/></svg>"

-- `"f" + (++this._uid) + source`, from the counter's old value.
unfoldable pub uid_of : ℕ → Text → Text
unfolding text
uid_of n source = text "f" ++ (decimal (suc n) ++ source)

-- The title and the description, where `opts.compact` is set.
unfoldable pub form_head : Shell → List Symbol
unfolding text fixed put template
form_head o = template (
    fixed (text "<div class=\"asw-leadform-title\">")
    ∷ put o.lead_form_title
    ∷ fixed (text "</div>")
    ∷ fixed (text "<div class=\"asw-leadform-desc\">")
    ∷ put o.lead_form_description
    ∷ fixed (text "</div>")
    ∷ [])

abbrev pub head_of : Bool → Shell → List Symbol
head_of compact o = if compact then form_head o else []

unfoldable pub form_body_html : Text → Text
unfolding text
form_body_html uid =
    ((text "<div class=\"asw-field\" id=\"")
      ++ (uid
          ++ ((text "-nf\">")
              ++ ((text "<label class=\"asw-flabel\" for=\"")
                  ++ (uid
                      ++ ((text
                            "-name\">\u{646}\u{627}\u{645} \u{648} \u{646}\u{627}\u{645} \u{62e}\u{627}\u{646}\u{648}\u{627}\u{62f}\u{6af}\u{6cc} <b>*</b></label>")
                          ++ ((text "<input type=\"text\" id=\"")
                              ++ (uid
                                  ++ ((text
                                        "-name\" name=\"name\" placeholder=\"\u{645}\u{62b}\u{644}\u{627}ً: \u{633}\u{627}\u{631}\u{627} \u{645}\u{62d}\u{645}\u{62f}\u{6cc}\" maxlength=\"200\" autocomplete=\"name\">")
                                      ++ ((text
                                            "<div class=\"asw-ferr\">\u{644}\u{637}\u{641}\u{627}ً \u{646}\u{627}\u{645} \u{62e}\u{648}\u{62f} \u{631}\u{627} \u{648}\u{627}\u{631}\u{62f} \u{6a9}\u{646}\u{6cc}\u{62f} (\u{62d}\u{62f}\u{627}\u{642}\u{644} ۲ \u{62d}\u{631}\u{641}).</div>")
                                          ++ ((text "</div>")
                                              ++ ((text "<div class=\"asw-field-row\">")
                                                  ++ ((text "<div class=\"asw-field\" id=\"")
                                                      ++ (uid
                                                          ++ ((text "-ef\">")
                                                            ++ ((text
                                                            "<label class=\"asw-flabel\" for=\"")
                                                            ++ (uid
                                                            ++ ((text
                                                            "-email\">\u{627}\u{6cc}\u{645}\u{6cc}\u{644}</label>")
                                                            ++ ((text "<input type=\"email\" id=\"")
                                                            ++ (uid
                                                            ++ ((text
                                                            "-email\" name=\"email\" placeholder=\"you@mail.com\" maxlength=\"254\" autocomplete=\"email\" dir=\"ltr\" style=\"text-align:left\">")
                                                            ++ ((text
                                                            "<div class=\"asw-ferr\">\u{627}\u{6cc}\u{645}\u{6cc}\u{644} \u{648}\u{627}\u{631}\u{62f}\u{634}\u{62f}\u{647} \u{645}\u{639}\u{62a}\u{628}\u{631} \u{646}\u{6cc}\u{633}\u{62a}.</div>")
                                                            ++ ((text "</div>")
                                                            ++ ((text
                                                            "<div class=\"asw-field\" id=\"")
                                                            ++ (uid
                                                            ++ ((text "-pf\">")
                                                            ++ ((text
                                                            "<label class=\"asw-flabel\" for=\"")
                                                            ++ (uid
                                                            ++ ((text
                                                            "-phone\">\u{634}\u{645}\u{627}\u{631}\u{647} \u{62a}\u{645}\u{627}\u{633}</label>")
                                                            ++ ((text "<input type=\"tel\" id=\"")
                                                            ++ (uid
                                                            ++ ((text
                                                            "-phone\" name=\"phone\" placeholder=\"0912···\" maxlength=\"30\" autocomplete=\"tel\" dir=\"ltr\" style=\"text-align:left\">")
                                                            ++ ((text
                                                            "<div class=\"asw-ferr\">\u{634}\u{645}\u{627}\u{631}\u{647} \u{62a}\u{645}\u{627}\u{633} \u{645}\u{639}\u{62a}\u{628}\u{631} \u{646}\u{6cc}\u{633}\u{62a}.</div>")
                                                            ++ ((text "</div>")
                                                            ++ ((text "</div>")
                                                            ++ ((text "<div class=\"asw-field\">")
                                                            ++ ((text
                                                            "<label class=\"asw-flabel\" for=\"")
                                                            ++ (uid
                                                            ++ ((text
                                                            "-note\">\u{62a}\u{648}\u{636}\u{6cc}\u{62d}\u{627}\u{62a} (\u{627}\u{62e}\u{62a}\u{6cc}\u{627}\u{631}\u{6cc})</label>")
                                                            ++ ((text "<textarea id=\"")
                                                            ++ (uid
                                                            ++ ((text
                                                            "-note\" name=\"note\" rows=\"3\" maxlength=\"2000\" placeholder=\"\u{62e}\u{644}\u{627}\u{635}\u{647}\u{200c}\u{6cc} \u{633}\u{624}\u{627}\u{644} \u{6cc}\u{627} \u{62f}\u{631}\u{62e}\u{648}\u{627}\u{633}\u{62a}\u{200c}\u{62a}\u{627}\u{646} \u{631}\u{627} \u{628}\u{646}\u{648}\u{6cc}\u{633}\u{6cc}\u{62f}…\"></textarea>")
                                                            ++ ((text "</div>")
                                                            ++ ((text
                                                            "<input type=\"text\" name=\"website\" value=\"\" tabindex=\"-1\" autocomplete=\"off\" aria-hidden=\"true\" style=\"position:absolute;left:-9999px;height:0;width:0\">")
                                                            ++ ((text
                                                            "<button type=\"button\" class=\"asw-form-submit\">")
                                                            ++ ((text
                                                            "<span class=\"asw-spinner\" hidden></span>")
                                                            ++ (icon_send
                                                            ++ ((text
                                                            "<span class=\"asw-btn-txt\">\u{62b}\u{628}\u{62a} \u{62f}\u{631}\u{62e}\u{648}\u{627}\u{633}\u{62a} \u{62a}\u{645}\u{627}\u{633}</span>")
                                                            ++ ((text "</button>")
                                                            ++ ((text
                                                            "<div class=\"asw-form-err\"></div>")
                                                            ++ ((text
                                                            "<div class=\"asw-form-note\">")
                                                            ++ (icon_info
                                                            ++ (text
                                                            "<span>\u{627}\u{637}\u{644}\u{627}\u{639}\u{627}\u{62a} \u{634}\u{645}\u{627} \u{641}\u{642}\u{637} \u{628}\u{631}\u{627}\u{6cc} \u{62a}\u{645}\u{627}\u{633} \u{6a9}\u{627}\u{631}\u{634}\u{646}\u{627}\u{633} \u{627}\u{633}\u{62a}\u{641}\u{627}\u{62f}\u{647} \u{645}\u{6cc}\u{200c}\u{634}\u{648}\u{62f} \u{648} \u{645}\u{62d}\u{631}\u{645}\u{627}\u{646}\u{647} \u{645}\u{6cc}\u{200c}\u{645}\u{627}\u{646}\u{62f}.</span></div>")
                                                            ))))))))))))))))))))))))))))))))))))))))
                                                            ))))))))))))

-- `wrap.innerHTML`.
unfoldable pub form_html : Bool → Text → Shell → Text
unfolding form_head form_body_html render
form_html compact uid o = render (head_of compact o) ++ form_body_html uid

-- The body as a template.
unfoldable pub form_body : Text → List Symbol
unfolding text fixed put template
form_body uid = template (
    fixed (text "<div class=\"asw-field\" id=\"")
    ∷ put uid
    ∷ fixed (text "-nf\">")
    ∷ fixed (text "<label class=\"asw-flabel\" for=\"")
    ∷ put uid
    ∷ fixed (
        text
          "-name\">\u{646}\u{627}\u{645} \u{648} \u{646}\u{627}\u{645} \u{62e}\u{627}\u{646}\u{648}\u{627}\u{62f}\u{6af}\u{6cc} <b>*</b></label>")
    ∷ fixed (text "<input type=\"text\" id=\"")
    ∷ put uid
    ∷ fixed (
        text
          "-name\" name=\"name\" placeholder=\"\u{645}\u{62b}\u{644}\u{627}ً: \u{633}\u{627}\u{631}\u{627} \u{645}\u{62d}\u{645}\u{62f}\u{6cc}\" maxlength=\"200\" autocomplete=\"name\">")
    ∷ fixed (
        text
          "<div class=\"asw-ferr\">\u{644}\u{637}\u{641}\u{627}ً \u{646}\u{627}\u{645} \u{62e}\u{648}\u{62f} \u{631}\u{627} \u{648}\u{627}\u{631}\u{62f} \u{6a9}\u{646}\u{6cc}\u{62f} (\u{62d}\u{62f}\u{627}\u{642}\u{644} ۲ \u{62d}\u{631}\u{641}).</div>")
    ∷ fixed (text "</div>")
    ∷ fixed (text "<div class=\"asw-field-row\">")
    ∷ fixed (text "<div class=\"asw-field\" id=\"")
    ∷ put uid
    ∷ fixed (text "-ef\">")
    ∷ fixed (text "<label class=\"asw-flabel\" for=\"")
    ∷ put uid
    ∷ fixed (text "-email\">\u{627}\u{6cc}\u{645}\u{6cc}\u{644}</label>")
    ∷ fixed (text "<input type=\"email\" id=\"")
    ∷ put uid
    ∷ fixed (
        text
          "-email\" name=\"email\" placeholder=\"you@mail.com\" maxlength=\"254\" autocomplete=\"email\" dir=\"ltr\" style=\"text-align:left\">")
    ∷ fixed (
        text
          "<div class=\"asw-ferr\">\u{627}\u{6cc}\u{645}\u{6cc}\u{644} \u{648}\u{627}\u{631}\u{62f}\u{634}\u{62f}\u{647} \u{645}\u{639}\u{62a}\u{628}\u{631} \u{646}\u{6cc}\u{633}\u{62a}.</div>")
    ∷ fixed (text "</div>")
    ∷ fixed (text "<div class=\"asw-field\" id=\"")
    ∷ put uid
    ∷ fixed (text "-pf\">")
    ∷ fixed (text "<label class=\"asw-flabel\" for=\"")
    ∷ put uid
    ∷ fixed
        (text "-phone\">\u{634}\u{645}\u{627}\u{631}\u{647} \u{62a}\u{645}\u{627}\u{633}</label>")
    ∷ fixed (text "<input type=\"tel\" id=\"")
    ∷ put uid
    ∷ fixed (
        text
          "-phone\" name=\"phone\" placeholder=\"0912···\" maxlength=\"30\" autocomplete=\"tel\" dir=\"ltr\" style=\"text-align:left\">")
    ∷ fixed (
        text
          "<div class=\"asw-ferr\">\u{634}\u{645}\u{627}\u{631}\u{647} \u{62a}\u{645}\u{627}\u{633} \u{645}\u{639}\u{62a}\u{628}\u{631} \u{646}\u{6cc}\u{633}\u{62a}.</div>")
    ∷ fixed (text "</div>")
    ∷ fixed (text "</div>")
    ∷ fixed (text "<div class=\"asw-field\">")
    ∷ fixed (text "<label class=\"asw-flabel\" for=\"")
    ∷ put uid
    ∷ fixed (
        text
          "-note\">\u{62a}\u{648}\u{636}\u{6cc}\u{62d}\u{627}\u{62a} (\u{627}\u{62e}\u{62a}\u{6cc}\u{627}\u{631}\u{6cc})</label>")
    ∷ fixed (text "<textarea id=\"")
    ∷ put uid
    ∷ fixed (
        text
          "-note\" name=\"note\" rows=\"3\" maxlength=\"2000\" placeholder=\"\u{62e}\u{644}\u{627}\u{635}\u{647}\u{200c}\u{6cc} \u{633}\u{624}\u{627}\u{644} \u{6cc}\u{627} \u{62f}\u{631}\u{62e}\u{648}\u{627}\u{633}\u{62a}\u{200c}\u{62a}\u{627}\u{646} \u{631}\u{627} \u{628}\u{646}\u{648}\u{6cc}\u{633}\u{6cc}\u{62f}…\"></textarea>")
    ∷ fixed (text "</div>")
    ∷ fixed (
        text
          "<input type=\"text\" name=\"website\" value=\"\" tabindex=\"-1\" autocomplete=\"off\" aria-hidden=\"true\" style=\"position:absolute;left:-9999px;height:0;width:0\">")
    ∷ fixed (text "<button type=\"button\" class=\"asw-form-submit\">")
    ∷ fixed (text "<span class=\"asw-spinner\" hidden></span>")
    ∷ fixed icon_send
    ∷ fixed (
        text
          "<span class=\"asw-btn-txt\">\u{62b}\u{628}\u{62a} \u{62f}\u{631}\u{62e}\u{648}\u{627}\u{633}\u{62a} \u{62a}\u{645}\u{627}\u{633}</span>")
    ∷ fixed (text "</button>")
    ∷ fixed (text "<div class=\"asw-form-err\"></div>")
    ∷ fixed (text "<div class=\"asw-form-note\">")
    ∷ fixed icon_info
    ∷ fixed (
        text
          "<span>\u{627}\u{637}\u{644}\u{627}\u{639}\u{627}\u{62a} \u{634}\u{645}\u{627} \u{641}\u{642}\u{637} \u{628}\u{631}\u{627}\u{6cc} \u{62a}\u{645}\u{627}\u{633} \u{6a9}\u{627}\u{631}\u{634}\u{646}\u{627}\u{633} \u{627}\u{633}\u{62a}\u{641}\u{627}\u{62f}\u{647} \u{645}\u{6cc}\u{200c}\u{634}\u{648}\u{62f} \u{648} \u{645}\u{62d}\u{631}\u{645}\u{627}\u{646}\u{647} \u{645}\u{6cc}\u{200c}\u{645}\u{627}\u{646}\u{62f}.</span></div>")
    ∷ [])
