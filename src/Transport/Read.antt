-- ===== src/Transport/Read.antt =====
-- transport.go: `readBounded`. The body of a response is what package io makes of it: `read_all n` is
-- the result of `io.ReadAll` on `io.LimitReader` with the limit `n`.
pub mod Whole
use treetop_client_go.Base.{Bytes, if◌then◌else◌, length}
use treetop_client_go.Base.Int.{ltb_ℤ, max_int64, pos, suc_ℤ, ℤ}
use treetop_client_go.Errors.{Result, ok, refuse_if, response_too_large, text, wrap, ◌>>=◌, ◌>>◌}

-- `http.Response`; the length is -1 where it is not known.
pub record HttpResponse : Type 0 where
  pub content_length : ℤ
  pub read_all : ℤ → Result Bytes

read_limit : ℤ → ℤ
read_limit limit = if ltb_ℤ limit (pos max_int64) then suc_ℤ limit else limit

pub read_bounded : HttpResponse → ℤ → Result Bytes
read_bounded response limit = do
  refuse_if (ltb_ℤ limit response.content_length) (response_too_large limit)
  body ← wrap (text "treetop: read response body") (response.read_all (read_limit limit))
  refuse_if (ltb_ℤ limit (pos (length body))) (response_too_large limit)
  ok body

-- The definitions of this file, for a test by evaluation.
unfoldable pub read_runs : Unit {0}
unfolding read_limit read_bounded
read_runs = tt
