-- ===== src/Runtime.antt =====
-- What the transport uses from outside this repository: package net/http, encoding/json, the clock,
-- timers and contexts. It is a parameter: a world that each call reads or moves on.
use spooled_sdk_go.Common.{ℕ, Option, ℤ, Text, List}
use spooled_sdk_go.Errors.{Error}
use spooled_sdk_go.Errors.Parse.{Decoders}
use spooled_sdk_go.Retry.{Floats}

-- The request that is handed to `http.Client.Do`.
pub record HttpRequest : Type 0 where
  pub method : Text
  pub url : Text
  pub body : Option Text
  pub headers : List (Text × Text)

-- What `Do` and `io.ReadAll` return: an error of either, or a status, a body and the headers' `Get`.
pub data Reply : Type 0 where
  no_reply unreadable : Error → Reply
  replied : ℕ → Text → (Text → Text) → Reply

-- The decoded answer to a login; the answer to a refresh has no refresh token.
pub record Login : Type 0 where
  pub access_token : Text
  pub refresh_token : Text
  pub expires_in : ℤ

-- What `json.Decode` makes of the answer's body.
pub data LoginBody : Type 0 where
  undecodable : Error → LoginBody
  decodes : Login → LoginBody

-- An error of making the request or of `Do`, or a status and a body.
pub data AuthReply : Type 0 where
  no_request no_answer : Error → AuthReply
  answered : ℕ → LoginBody → AuthReply

pub record Runtime : Type 1 where
  pub World : Type 0
  pub floats : Floats
  pub decoders : Decoders
  -- The clock, in nanoseconds.
  pub now : World → ℕ
  -- `http.Client.Do` of the transport, with the reading of the body.
  pub client_do : HttpRequest → World → Reply × World
  -- `ctx.Err()`; `none` is nil.
  pub ctx_err : World → Option Error
  -- The `select` on `ctx.Done()` and a timer: an error if the context is done first.
  pub wait : ℤ → World → Option Error × World
  -- The number that the retry policy's source draws.
  pub random : World → floats.Float × World
  -- A refused method or URL (`http.NewRequestWithContext`).
  pub check_request : Text → Text → Option Error
  -- The canonical form of a header's name.
  pub canonical : Text → Text
  -- `url.Values.Encode`.
  pub encode_query : List (Text × Text) → Text
  -- `err.Error()`, and the text of a timeout.
  pub error_text : Error → Text
  pub timeout_text : ℤ → Text
  -- A POST of a body to a URL by the token refresher's own client.
  pub auth_do : Text → Text → World → AuthReply × World
  -- The `select` on the refresh that another goroutine makes.
  pub await_refresh : World → Option Error × World
