-- ===== src/Handlers/Served.antt =====
-- How a stored type is served.
use filehost.Base.{
  ◌≡◌, sym, ◌∙◌, inl, inr, true, Bytes, bytes_eq, bytes_eq_sound, ascii, Bool-cases, arith,
}
use filehost.Handlers.Types.{Mime, is_type, is_subtype, DispositionType, disposition, serve_mime}

one_type : (a b : Bytes) (x : Bytes) → bytes_eq x a ≡ true → bytes_eq x b ≡ true → a ≡ b
one_type a b x h k = sym (bytes_eq_sound x a h) ∙ bytes_eq_sound x b k

-- A file that the browser is to show stands under its stored type; and whatever is sent with the type
-- `text`, shown or saved, is sent as `plain`: a stored text of another kind is never shown as such.
pub serve_mime_lem :
    (m : Mime)
    → (disposition m ≡ DispositionType.inline → serve_mime m ≡ m)
      × (is_type "text" (serve_mime m) ≡ true → is_subtype "plain" (serve_mime m) ≡ true)
unfolding disposition serve_mime
serve_mime_lem m = (
  λ h. elim (Bool-cases (is_type "text" m)) [
    | inr e ↦ ground (arith, e)
    | inl e ↦ elim (Bool-cases (is_subtype "plain" m)) [
      | inl f ↦ ground (arith, e, f)
      | inr f ↦ absurd (
          ground (
            arith,
            e,
            f,
            h,
            one_type (ascii "text") (ascii "image") m.type_ e,
            one_type (ascii "text") (ascii "video") m.type_ e,
            one_type (ascii "text") (ascii "audio") m.type_ e,
            one_type (ascii "text") (ascii "application") m.type_ e,
          ))
    ]
  ],
  λ h. elim (Bool-cases (is_type "text" m)) [
    | inl e ↦ elim (Bool-cases (is_subtype "plain" m)) [
      | inl f ↦ ground (arith, e, f)
      | inr f ↦ ground (arith, e, f)
    ]
    | inr e ↦ ground (arith, e, h)
  ],
)
