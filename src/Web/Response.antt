-- ===== src/Web/Response.antt =====
-- web/response.go: the helpers that put an answer into the context, and web/server.go,
-- handleResponse, which sends it. Encoders and template engines are parameters.
use fyer_webframe.Base.{
  ℕ, Bool, true, false, not, ◌&&◌, [], ◌∷◌, ◌++◌, Option, none, some, if◌then◌else◌, ite,
}
use fyer_webframe.Base.Text.{Text, text_dec, codes}
use fyer_webframe.Base.Int.{ℤ, pos, ltℤ}
use fyer_webframe.Web.Context.{
  write_header, write, serve_file, serve_fs, redirect, http_error, Request, WebContext, on_web,
  call, status, put_header,
}

pub record ProblemDetails : Type 0 where
  pub type : Text
  pub title : Text
  pub status : ℤ
  pub detail : Text
  pub instance_uri : Text

-- encoding/json, encoding/xml with its header, the template engines, filepath.Base, and the two
-- encodings of a problem, that in XML without a header. `D` is the type of the data.
pub record Encoders (D : Type 0) : Type 0 where
  pub json : D → Option Text
  pub xml : D → Option Text
  pub render : ℕ → Text → D → Option Text
  pub problem_json : ProblemDetails → Option Text
  pub problem_xml : ProblemDetails → Option Text
  pub error_body : Text → D
  pub base_name : Text → Text

-- What a helper returns, nil or an error, or its panic.
pub data Result : Type 0 where
  ok : Result
  failed : Result
  panicked : Result

module _ {U : Type 0} where
  -- The answer's data, left for handleResponse to send.
  abbrev pub set_data : Text → WebContext U → WebContext U
  set_data data_bytes ctx = on_web (λ w. record w { resp_data = data_bytes; unhandled = true }) ctx

  abbrev pub handled : WebContext U → WebContext U
  handled ctx = on_web (λ w. record w { unhandled = false }) ctx

  -- The part that JSON, XML and String share.
  abbrev pub encoded : Text → ℤ → Option Text → WebContext U → WebContext U × Result
  encoded content_type code none ctx =
      (status code (put_header (codes "Content-Type") content_type ctx), failed)
  encoded content_type code (some bytes) ctx =
      (set_data bytes (status code (put_header (codes "Content-Type") content_type ctx)), ok)

abbrev pub content_type_json : Text
content_type_json = codes "application/json; charset=utf-8"

abbrev pub content_type_xml : Text
content_type_xml = codes "application/xml; charset=utf-8"

abbrev pub content_type_plain : Text
content_type_plain = codes "text/plain; charset=utf-8"

abbrev pub content_type_html : Text
content_type_html = codes "text/html; charset=utf-8"

abbrev pub content_type_event_stream : Text
content_type_event_stream = codes "text/event-stream; charset=utf-8"

abbrev pub content_type_problem_json : Text
content_type_problem_json = codes "application/problem+json"

abbrev pub content_type_problem_xml : Text
content_type_problem_xml = codes "application/problem+xml"

abbrev pub content_type_attachment : Text
content_type_attachment = codes "attachment"

-- The helpers that leave an answer to be sent; the problem of Problem is none where it is nil.
pub data Answer (D : Type 0) : Type 0 where
  json_answer : ℤ → D → Answer D
  xml_answer : ℤ → D → Answer D
  string_answer : ℤ → Text → Answer D
  html_answer : ℤ → Text → Answer D
  template_answer : Text → D → Answer D
  created : Text → D → Answer D
  no_content : Answer D
  bad_request : Text → Answer D
  unauthorized : Text → Answer D
  forbidden : Text → Answer D
  not_found : Text → Answer D
  internal_server_error : Text → Answer D
  problem_answer : ℤ → Option ProblemDetails → Answer D

abbrev pub or_default : Text → Text → Text
or_default t message = ite (text_dec message []) t message

module _ {D : Type 0} (encoders : Encoders D) where
  abbrev pub render_with : Option ℕ → Text → D → Option Text
  render_with none name d = none
  render_with (some engine) name d = encoders.render engine name d

  module _ {U : Type 0} where
    -- JSON
    unfoldable pub json : ℤ → D → WebContext U → WebContext U × Result
    json code d ctx = encoded content_type_json code (encoders.json d) ctx

    -- XML
    unfoldable pub xml : ℤ → D → WebContext U → WebContext U × Result
    xml code d ctx = encoded content_type_xml code (encoders.xml d) ctx

    -- String, of the text that Fprintf writes, and HTML
    unfoldable pub string : ℤ → Text → WebContext U → WebContext U × Result
    string code text ctx = encoded content_type_plain code (some text) ctx

    unfoldable pub html : ℤ → Text → WebContext U → WebContext U × Result
    html code text ctx = encoded content_type_html code (some text) ctx

    -- Template; it leaves the flag `unhandled` alone.
    abbrev pub rendered : Option Text → WebContext U → WebContext U × Result
    rendered none ctx = (ctx, failed)
    rendered (some result) ctx = (
      on_web (λ w. record w { resp_data = result; resp_status_code = pos 200 })
          (put_header (codes "Content-Type") content_type_html ctx),
      ok,
    )

    -- Without an engine, Template returns an error as well.
    unfoldable pub template : Text → D → WebContext U → WebContext U × Result
    template name d ctx = rendered (render_with ctx.state.tpl_engine name d) ctx

    -- Created
    unfoldable pub create : Text → D → WebContext U → WebContext U × Result
    unfolding json
    create uri d ctx =
        json (pos 201) d (ite (text_dec uri []) ctx (put_header (codes "Location") uri ctx))

    -- NoContent
    unfoldable pub empty : WebContext U → WebContext U × Result
    empty ctx = (on_web (λ w. record w { resp_status_code = pos 204; unhandled = true }) ctx, ok)

    -- BadRequest, Unauthorized, Forbidden, NotFound and InternalServerError
    unfoldable pub json_error : ℤ → Text → WebContext U → WebContext U × Result
    json_error code message ctx = json code (encoders.error_body message) ctx

    -- Problem, which sets the problem's status and encodes it as the request asks; it reads the
    -- header of a request, and panics without one.
    abbrev pub problem_data : Text → ℤ → Option Text → WebContext U → WebContext U × Result
    problem_data content_type code none ctx =
        (put_header (codes "Content-Type") content_type ctx, failed)
    problem_data content_type code (some bytes) ctx =
        (set_data bytes (status code (put_header (codes "Content-Type") content_type ctx)), ok)

    abbrev pub problem_for :
        ℤ → ProblemDetails → Option Request → WebContext U → WebContext U × Result
    problem_for code p none ctx = (ctx, panicked)
    problem_for code p (some request) ctx =
        ite (text_dec (request.header (codes "Accept")) content_type_problem_xml)
          (problem_data content_type_problem_xml code (encoders.problem_xml p) ctx)
          (problem_data content_type_problem_json code (encoders.problem_json p) ctx)

    unfoldable pub problem : ℤ → Option ProblemDetails → WebContext U → WebContext U × Result
    problem code none ctx = (ctx, failed)
    problem code (some p) ctx = problem_for code (record p { status = code }) ctx.state.req ctx

    -- One helper.
    unfoldable pub answer : Answer D → WebContext U → WebContext U × Result
    answer (json_answer code d) ctx = json code d ctx
    answer (xml_answer code d) ctx = xml code d ctx
    answer (string_answer code t) ctx = string code t ctx
    answer (html_answer code t) ctx = html code t ctx
    answer (template_answer name d) ctx = template name d ctx
    answer (created uri d) ctx = create uri d ctx
    answer no_content ctx = empty ctx
    answer (bad_request message) ctx = json_error (pos 400) message ctx
    answer (unauthorized message) ctx = json_error (pos 401) message ctx
    answer (forbidden message) ctx = json_error (pos 403) message ctx
    answer (not_found message) ctx =
        json_error (pos 404) (or_default (codes "resource not found") message) ctx
    answer (internal_server_error message) ctx =
        json_error (pos 500) (or_default (codes "internal server error") message) ctx
    answer (problem_answer code p) ctx = problem code p ctx

    -- File and FileFromFS
    unfoldable pub file : Text → WebContext U → WebContext U
    file path ctx = handled (call (serve_file path) ctx)

    unfoldable pub file_from_fs : Text → WebContext U → WebContext U
    file_from_fs path ctx = handled (call (serve_fs path) ctx)

    -- Attachment
    unfoldable pub attachment : Text → Text → WebContext U → WebContext U
    attachment path name ctx =
        let shown = ite (text_dec name []) (encoders.base_name path) name in
        file path (
          put_header (codes "Content-Disposition")
            (content_type_attachment ++ codes "; filename=\"" ++ shown ++ codes "\"") ctx)

    -- Redirect
    unfoldable pub redirects : ℤ → Text → WebContext U → WebContext U
    redirects code url ctx = handled (call (redirect code url) ctx)

-- What a context is answered with: code 200 where none is set.
abbrev pub sent_status : ℤ → ℤ
sent_status code = if ltℤ (pos 0) code then code else pos 200

abbrev pub is_empty_text : Text → Bool
is_empty_text [] = true
is_empty_text (c ∷ t) = false

module _ {U : Type 0} where
  -- The calls after the header: `write_fails` says whether the writer takes the data.
  abbrev pub send_data : Bool → WebContext U → WebContext U
  send_data write_fails ctx =
      let written = call (write ctx.state.resp_data) ctx in
      if is_empty_text ctx.state.resp_data
      then ctx
      else if write_fails && ltℤ ctx.state.resp_status_code (pos 400)
      then call (http_error (codes "Internal Server Error") (pos 500)) written
      else written

  -- handleResponse
  unfoldable pub handle_response : Bool → WebContext U → WebContext U
  handle_response write_fails ctx =
      let code = sent_status ctx.state.resp_status_code in
      let answered = status code ctx in
      if not ctx.state.unhandled
      then ctx
      else send_data write_fails (call (write_header code) answered)
