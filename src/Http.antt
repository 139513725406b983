-- ===== src/Http.antt =====
-- What both parsers and all the handlers share: character classes, headers, requests, responses,
-- the two builders, and the texts and functions of `ResponseHelperLibrary`.
mod Chars
mod Headers
mod Messages
pub mod StatusStrings
pub mod StockResponses
pub mod Library
pub mod Wire
unfoldable pub use Chars.{is_char, is_ctl, is_tspecial, is_digit, is_hex, is_token}
pub use Chars.{IsNameByte, IsUriByte, IsTextByte, is_ctl-IsTextByte, token-IsNameByte}
pub use Headers.{
  Header, back-concat, push_name-concat, push_value-concat, IsClean, push_name-IsClean,
  push_value-IsClean, start_header-IsClean, init-push_name, init-push_value, init-start_header,
  back-push_value,
}
unfoldable pub use Headers.{push_name, push_value, back, start_header, init}
pub use Messages.{
  MethodEnum, get, head, post, put, delete, connect, options, trace, Request, Response, ok,
  moved_permanently, moved_temporarily, bad_request, not_found, bad_gateway, RequestBuilder,
  ResponseBuilder,
}
unfoldable pub use Messages.{method_of, collect, build_request, build_response}
