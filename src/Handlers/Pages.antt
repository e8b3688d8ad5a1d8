-- ===== src/Handlers/Pages.antt =====
-- The pages that are sent as they were rendered at the start (src/handlers.rs, src/templates.rs): the
-- index with its two configurations, and the captcha's page and script. Rendering is a library's.
use filehost.Base.{Option, none, some, ◌++◌, Bytes, ascii}

-- `RenderedTemplates`.
pub record RenderedTemplates : Type 0 where
  pub index : Bytes
  pub hupl : Bytes
  pub sharex : Bytes
  pub captcha : Bytes
  pub captcha_js : Bytes

-- `render`, with the template engine over the settings; the captcha's two files hold no template.
unfoldable pub render : (Bytes → Bytes) → Bytes → Bytes → Bytes → Bytes → Bytes → RenderedTemplates
render template index hupl sharex captcha captcha_js = record {
  index = template index;
  hupl = template hupl;
  sharex = template sharex;
  captcha = captcha;
  captcha_js = captcha_js;
}

-- `Config`, the value of `?config=`.
pub data Config : Type 0 where
  hupl sharex : Config

pub data PageType : Type 0 where
  json html javascript : PageType

-- A page that is sent with 200; `attachment` is the name under which it is to be saved.
pub record Page : Type 0 where
  pub content_type : PageType
  pub attachment : Option Bytes
  pub body : Bytes

unfoldable pub index : RenderedTemplates → Bytes → Option Config → Page
index rendered name none = record {
  content_type = PageType.html;
  attachment = none;
  body = rendered.index;
}
index rendered name (some Config.hupl) = record {
  content_type = PageType.json;
  attachment = some (name ++ ascii ".hupl");
  body = rendered.hupl;
}
index rendered name (some Config.sharex) = record {
  content_type = PageType.json;
  attachment = some (name ++ ascii ".sxcu");
  body = rendered.sharex;
}

unfoldable pub captcha_page : RenderedTemplates → Page
captcha_page rendered = record {
  content_type = PageType.html;
  attachment = none;
  body = rendered.captcha;
}

unfoldable pub captcha_js : RenderedTemplates → Page
captcha_js rendered = record {
  content_type = PageType.javascript;
  attachment = none;
  body = rendered.captcha_js;
}
