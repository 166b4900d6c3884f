-- ===== src/Mail/Render.antt =====
-- mail.py, the templates: the message that carries a sign-in code, and the one for a reset token.
use mxtng_auth_services.Common.{
  ℕ, ◌/◌, max, String, Option, none, some, [], ◌∷◌, truthy, if◌then◌else◌,
}
use mxtng_auth_services.Text.{concat, show, has_char}
use mxtng_auth_services.Models.{Datetime}
use mxtng_auth_services.World.{World, RenderedMessage}

-- `_shell`
unfoldable pub shell : String → String → String
shell heading body_html = concat (
    "<div style=\"font-family:system-ui,-apple-system,Segoe "
    ∷ "UI,sans-serif;max-width:480px;margin:0 "
    ∷ "auto;padding:24px;color:#111\"><h1 style=\"font-size:18px;margin:0 0 " ∷ "16px\">" ∷ heading
    ∷ "</h1>" ∷ body_html ∷ "<p style=\"font-size:12px;color:#666;margin-top:24px\">If you did not "
    ∷ "request this, you can safely ignore this email.</p></div>" ∷ [])

abbrev minutes : ℕ → String
minutes ttl_seconds = show (max 1 (ttl_seconds / 60))

unfoldable pub render_sign_in_code : World → String → ℕ → Datetime → RenderedMessage
unfolding shell
render_sign_in_code w code ttl_seconds requested_at =
    let body = concat (
      "<p style=\"font-size:14px;margin:0 0 16px\">Enter this code to finish "
      ∷ "signing in:</p><p "
      ∷ "style=\"font-size:32px;letter-spacing:6px;font-weight:600;margin:0 0 "
      ∷ "16px\">"
      ∷ w.html_escape code
      ∷ "</p><p style=\"font-size:14px;margin:0 0 8px\">It expires in "
      ∷ minutes ttl_seconds
      ∷ " minutes.</p><p style=\"font-size:13px;color:#666;margin:0\">Requested "
      ∷ "at "
      ∷ w.html_escape (w.utc_stamp requested_at)
      ∷ ". If you asked for a new code, only the most recent one works.</p>"
      ∷ []) in
    let text = concat (
      "Your sign-in code is "
      ∷ code
      ∷ ".\n\nIt expires in "
      ∷ minutes ttl_seconds
      ∷ " minutes.\nRequested at "
      ∷ w.utc_stamp requested_at
      ∷ ". If you asked for a new code, only the most recent one works.\n\nIf "
      ∷ "you did not request this, you can safely ignore this email."
      ∷ []) in
    record {
      subject = "Your sign-in code";
      html_body = shell "Your sign-in code" body;
      text_body = text;
    }

-- The token as a query parameter, behind `&` if the address has a query already.
unfoldable pub reset_link : String → String → String
reset_link reset_url token =
    concat (reset_url ∷ (if has_char b'?' reset_url then "&" else "?") ∷ "token=" ∷ token ∷ [])

link_message : World → String → ℕ → String → RenderedMessage
unfolding shell reset_link
link_message w token ttl_seconds reset_url =
    let body = concat (
      "<p style=\"font-size:14px;margin:0 0 16px\">Use this link to choose a "
      ∷ "new password:</p><p style=\"margin:0 0 16px\"><a href=\""
      ∷ w.html_escape (reset_link reset_url token)
      ∷ "\">Reset your password</a></p><p style=\"font-size:14px;margin:0\">The "
      ∷ "link expires in "
      ∷ minutes ttl_seconds
      ∷ " minutes and can be used once.</p>"
      ∷ []) in
    let text = concat (
      "Use this link to choose a new password:\n"
      ∷ reset_link reset_url token
      ∷ "\n\nThe link expires in "
      ∷ minutes ttl_seconds
      ∷ " minutes and can be used once."
      ∷ []) in
    record {
      subject = "Reset your password";
      html_body = shell "Reset your password" body;
      text_body = text;
    }

token_message : World → String → ℕ → RenderedMessage
unfolding shell
token_message w token ttl_seconds =
    let body = concat (
      "<p style=\"font-size:14px;margin:0 0 16px\">Use this token to choose a "
      ∷ "new password:</p><p "
      ∷ "style=\"font-size:14px;font-family:monospace;word-break:break-all;margi"
      ∷ "n:0 0 16px\">"
      ∷ w.html_escape token
      ∷ "</p><p style=\"font-size:14px;margin:0\">It expires in "
      ∷ minutes ttl_seconds
      ∷ " minutes and can be used once.</p>"
      ∷ []) in
    let text = concat (
      "Use this token to choose a new password:\n"
      ∷ token
      ∷ "\n\nIt expires in "
      ∷ minutes ttl_seconds
      ∷ " minutes and can be used once."
      ∷ []) in
    record {
      subject = "Reset your password";
      html_body = shell "Reset your password" body;
      text_body = text;
    }

unfoldable pub render_password_reset : World → String → ℕ → Option String → RenderedMessage
unfolding link_message token_message
render_password_reset w token ttl_seconds none = token_message w token ttl_seconds
render_password_reset w token ttl_seconds (some reset_url) =
    if truthy (some reset_url)
    then link_message w token ttl_seconds reset_url
    else token_message w token ttl_seconds
