-- ===== src/Web/Answers.antt =====
-- web/response.go with handleResponse of web/server.go: what a response helper leads to.
use fyer_webframe.Base.{
  ◌≡◌, refl, sym, ap, ◌∙◌, true, false, List, [], ◌∷◌, ◌++◌, Option, none, some, ite, All,
}
use mathlib.Core.List.{append_assoc, append-nil}
use fyer_webframe.Base.Text.{Text, text_dec, codes}
use fyer_webframe.Base.Int.{ℤ, pos}
use fyer_webframe.Web.Context.{
  Call, Request, write_header, write, set_header, WebContext, put_header,
}
use fyer_webframe.Web.Response.{
  Encoders, ProblemDetails, Result, ok, failed, panicked, problem_for, render_with,
  content_type_problem_xml, content_type_problem_json, Answer, json_answer, xml_answer,
  string_answer, html_answer, template_answer, created, no_content, bad_request, unauthorized,
  forbidden, not_found, internal_server_error, problem_answer, encoded, json, xml, string, html,
  template, create, empty, json_error, problem, answer, or_default, rendered, problem_data,
  content_type_json, content_type_html, sent_status, send_data, handle_response,
}

abbrev pub IsSetHeader : Call → Type 0
IsSetHeader (set_header key value) = Unit {0}
IsSetHeader c = ⊥

-- The context holds `bytes` under `code`, to be sent, behind header fields that were set.
pub record Ready {U : Type 0} (code : ℤ) (bytes : Text) (before after : WebContext U) : Type 0 where
  pub headers : List Call
  pub only_headers : All IsSetHeader headers
  pub resp_after : after.state.resp ≡ before.state.resp ++ headers
  pub status_after : after.state.resp_status_code ≡ code
  pub data_after : after.state.resp_data ≡ bytes
  pub unhandled_after : after.state.unhandled ≡ true

panicked≢ok : ¬ (panicked ≡ ok)
panicked≢ok e = cc

failed≢ok : ¬ (failed ≡ ok)
failed≢ok e = cc

abbrev pub Prepared : {U : Type 0} → ℤ → Option Text → WebContext U → WebContext U × Result → Type 0
Prepared code o before (after, result) =
    (bytes : Text) × (o ≡ some bytes) × Ready code bytes before after

module _ {D : Type 0} (encoders : Encoders D) where
  -- The status that a helper stands for.
  abbrev pub answer_status : Answer D → ℤ
  answer_status (json_answer code d) = code
  answer_status (xml_answer code d) = code
  answer_status (string_answer code t) = code
  answer_status (html_answer code t) = code
  answer_status (template_answer name d) = pos 200
  answer_status (created uri d) = pos 201
  answer_status no_content = pos 204
  answer_status (bad_request message) = pos 400
  answer_status (unauthorized message) = pos 401
  answer_status (forbidden message) = pos 403
  answer_status (not_found message) = pos 404
  answer_status (internal_server_error message) = pos 500
  answer_status (problem_answer code p) = code

  -- The problem under the code, as the request asks for it.
  abbrev pub problem_bytes : ℤ → Option ProblemDetails → Option Request → Option Text
  problem_bytes code none request = none
  problem_bytes code (some p) none = none
  problem_bytes code (some p) (some request) =
      ite (text_dec (request.header (codes "Accept")) content_type_problem_xml)
        (encoders.problem_xml (record p { status = code }))
        (encoders.problem_json (record p { status = code }))

  -- The data that a helper stands for; NoContent leaves those of the context.
  abbrev pub answer_data : {U : Type 0} → WebContext U → Answer D → Option Text
  answer_data ctx (json_answer code d) = encoders.json d
  answer_data ctx (xml_answer code d) = encoders.xml d
  answer_data ctx (string_answer code t) = some t
  answer_data ctx (html_answer code t) = some t
  answer_data ctx (template_answer name d) = render_with encoders ctx.state.tpl_engine name d
  answer_data ctx (created uri d) = encoders.json d
  answer_data ctx no_content = some ctx.state.resp_data
  answer_data ctx (bad_request message) = encoders.json (encoders.error_body message)
  answer_data ctx (unauthorized message) = encoders.json (encoders.error_body message)
  answer_data ctx (forbidden message) = encoders.json (encoders.error_body message)
  answer_data ctx (not_found message) =
      encoders.json (encoders.error_body (or_default (codes "resource not found") message))
  answer_data ctx (internal_server_error message) =
      encoders.json (encoders.error_body (or_default (codes "internal server error") message))
  answer_data ctx (problem_answer code p) = problem_bytes code p ctx.state.req

  module _ {U : Type 0} where
    encoded-Prepared :
        (content_type : Text) (code : ℤ) (o : Option Text) (ctx : WebContext U)
        → (encoded content_type code o ctx).1 ≡ ok
        → Prepared code o ctx (encoded content_type code o ctx)
    encoded-Prepared content_type code none ctx e = absurd (failed≢ok e)
    encoded-Prepared content_type code (some bytes) ctx e = (
      bytes,
      refl,
      record {
        headers = set_header (codes "Content-Type") content_type ∷ [];
        only_headers = (tt, tt);
        resp_after = refl;
        status_after = refl;
        data_after = refl;
        unhandled_after = refl;
      },
    )

    problem_data-Prepared :
        (content_type : Text) (code : ℤ) (o : Option Text) (ctx : WebContext U)
        → (problem_data encoders content_type code o ctx).1 ≡ ok
        → Prepared code o ctx (problem_data encoders content_type code o ctx)
    problem_data-Prepared content_type code none ctx e = absurd (failed≢ok e)
    problem_data-Prepared content_type code (some bytes) ctx e =
        encoded-Prepared content_type code (some bytes) ctx refl

    problem-Prepared :
        (code : ℤ) (p : Option ProblemDetails) (ctx : WebContext U)
        → (problem encoders code p ctx).1 ≡ ok
        → Prepared code (problem_bytes code p ctx.state.req) ctx (problem encoders code p ctx)
    unfolding problem
    problem-Prepared code none ctx e = absurd (failed≢ok e)
    problem-Prepared code (some p) ctx e = of_request ctx.state.req e
      where
        q : ProblemDetails
        q = record p { status = code }

        of_request :
            (o : Option Request)
            → (problem_for encoders code q o ctx).1 ≡ ok
            → Prepared code (problem_bytes code (some p) o) ctx (problem_for encoders code q o ctx)
        of_request none e = absurd (panicked≢ok e)
        of_request (some request) e =
            elim (text_dec (request.header (codes "Accept")) content_type_problem_xml)
                as (λ b.
                  (ite b
                      (problem_data encoders content_type_problem_xml code (encoders.problem_xml q)
                        ctx)
                      (problem_data encoders content_type_problem_json code
                        (encoders.problem_json q) ctx)).1
                    ≡ ok
                  → Prepared code (ite b (encoders.problem_xml q) (encoders.problem_json q)) ctx (
                      ite b
                        (problem_data encoders content_type_problem_xml code
                          (encoders.problem_xml q) ctx)
                        (problem_data encoders content_type_problem_json code
                          (encoders.problem_json q) ctx))) [
                            | yes a ↦ λ e.
                                problem_data-Prepared content_type_problem_xml code
                                  (encoders.problem_xml q) ctx e
                            | no a ↦ λ e.
                                problem_data-Prepared content_type_problem_json code
                                  (encoders.problem_json q) ctx e
                          ]
              e

    rendered-Prepared :
        (o : Option Text) (ctx : WebContext U)
        → ctx.state.unhandled ≡ true
        → (rendered encoders o ctx).1 ≡ ok
        → Prepared (pos 200) o ctx (rendered encoders o ctx)
    rendered-Prepared none ctx un e = absurd (failed≢ok e)
    rendered-Prepared (some bytes) ctx un e = (
      bytes,
      refl,
      record {
        headers = set_header (codes "Content-Type") content_type_html ∷ [];
        only_headers = (tt, tt);
        resp_after = refl;
        status_after = refl;
        data_after = refl;
        unhandled_after = un;
      },
    )

    -- One more header field in front.
    Prepared-put_header :
        (key value : Text) (code : ℤ) (o : Option Text) (ctx : WebContext U)
        (done : WebContext U × Result)
        → Prepared code o (put_header key value ctx) done
        → Prepared code o ctx done
    Prepared-put_header key value code o ctx (after, result) (bytes, e, r) = (
      bytes,
      e,
      record {
        headers = set_header key value ∷ r.headers;
        only_headers = (tt, r.only_headers);
        resp_after =
            r.resp_after ∙ append_assoc ctx.state.resp (set_header key value ∷ []) r.headers;
        status_after = r.status_after;
        data_after = r.data_after;
        unhandled_after = r.unhandled_after;
      },
    )

    create-Prepared :
        (uri : Text) (d : D) (ctx : WebContext U)
        → (create encoders uri d ctx).1 ≡ ok
        → Prepared (pos 201) (encoders.json d) ctx (create encoders uri d ctx)
    unfolding create json
    create-Prepared uri d ctx =
        elim (text_dec uri [])
          as (λ b.
            (encoded content_type_json (pos 201) (encoders.json d)
                (ite b ctx (put_header (codes "Location") uri ctx))).1
              ≡ ok
            → Prepared (pos 201) (encoders.json d) ctx (
                encoded content_type_json (pos 201) (encoders.json d)
                  (ite b ctx (put_header (codes "Location") uri ctx)))) [
                    | yes q ↦
                        λ e. encoded-Prepared content_type_json (pos 201) (encoders.json d) ctx e
                    | no q ↦ λ e.
                        let located = put_header (codes "Location") uri ctx in
                        Prepared-put_header (codes "Location") uri (pos 201) (encoders.json d) ctx
                          (encoded content_type_json (pos 201) (encoders.json d) located)
                          (encoded-Prepared content_type_json (pos 201) (encoders.json d) located e)
                  ]

    answer-Prepared :
        (a : Answer D) (ctx : WebContext U)
        → ctx.state.unhandled ≡ true
        → (answer encoders a ctx).1 ≡ ok
        → Prepared (answer_status a) (answer_data ctx a) ctx (answer encoders a ctx)
    unfolding answer json xml string html template empty json_error
    answer-Prepared (json_answer code d) ctx un e = encoded-Prepared _ code (encoders.json d) ctx e
    answer-Prepared (xml_answer code d) ctx un e = encoded-Prepared _ code (encoders.xml d) ctx e
    answer-Prepared (string_answer code t) ctx un e = encoded-Prepared _ code (some t) ctx e
    answer-Prepared (html_answer code t) ctx un e = encoded-Prepared _ code (some t) ctx e
    answer-Prepared (template_answer name d) ctx un e =
        rendered-Prepared (render_with encoders ctx.state.tpl_engine name d) ctx un e
    answer-Prepared (created uri d) ctx un e = create-Prepared uri d ctx e
    answer-Prepared no_content ctx un e = (
      ctx.state.resp_data,
      refl,
      record {
        headers = [];
        only_headers = tt;
        resp_after = sym (append-nil ctx.state.resp);
        status_after = refl;
        data_after = refl;
        unhandled_after = refl;
      },
    )
    answer-Prepared (bad_request message) ctx un e = encoded-Prepared _ (pos 400) _ ctx e
    answer-Prepared (unauthorized message) ctx un e = encoded-Prepared _ (pos 401) _ ctx e
    answer-Prepared (forbidden message) ctx un e = encoded-Prepared _ (pos 403) _ ctx e
    answer-Prepared (not_found message) ctx un e = encoded-Prepared _ (pos 404) _ ctx e
    answer-Prepared (internal_server_error message) ctx un e = encoded-Prepared _ (pos 500) _ ctx e
    answer-Prepared (problem_answer code p) ctx un e = problem-Prepared code p ctx e

-- The calls that send data, none where there are none.
abbrev pub body : Text → List Call
body [] = []
body (c ∷ t) = write (c ∷ t) ∷ []

module _ {U : Type 0} where
  send_data-resp :
      (ctx : WebContext U) (bytes : Text)
      → ctx.state.resp_data ≡ bytes
      → (send_data false ctx).state.resp ≡ ctx.state.resp ++ body bytes
  send_data-resp ctx [] e = rw e (sym (append-nil ctx.state.resp))
  send_data-resp ctx (c ∷ t) e = rw e refl

  handle_response-resp :
      (ctx : WebContext U)
      → ctx.state.unhandled ≡ true
      → (handle_response false ctx).state.resp
        ≡ ctx.state.resp
          ++ (write_header (sent_status ctx.state.resp_status_code) ∷ body ctx.state.resp_data)
  unfolding handle_response
  handle_response-resp ctx un =
      rw un (send_data-resp _ ctx.state.resp_data refl ∙ append_assoc ctx.state.resp _ _)

  Ready-handle_response :
      (code : ℤ) (bytes : Text) (before after : WebContext U) (r : Ready code bytes before after)
      → (handle_response false after).state.resp
        ≡ before.state.resp ++ (r.headers ++ (write_header (sent_status code) ∷ body bytes))
  Ready-handle_response code bytes before after r =
      handle_response-resp after r.unhandled_after
      ∙ ap
          (λ (x : List Call).
            x
            ++ (write_header (sent_status after.state.resp_status_code)
                ∷ body after.state.resp_data))
          r.resp_after
      ∙ ap
          (λ c.
            (before.state.resp ++ r.headers)
            ++ (write_header (sent_status c) ∷ body after.state.resp_data))
          r.status_after
      ∙ ap (λ t. (before.state.resp ++ r.headers) ++ (write_header (sent_status code) ∷ body t))
          r.data_after
      ∙ append_assoc before.state.resp r.headers _

-- Where JSON, XML, String, HTML, Template, Created, NoContent, BadRequest, Unauthorized,
-- Forbidden, NotFound, InternalServerError or Problem returns nil, on a context that is not
-- handled yet, handleResponse then writes, after header fields only, the status of the helper, 200
-- in place of one that is not positive, once and the data of the helper once, none where they are
-- empty, on a writer that takes them. NoContent keeps the data that were there, and Problem
-- encodes the problem with its status set, in XML where the Accept field of the request is the
-- type of problems in XML, and in JSON otherwise.
pub answer-sent :
    {D U : Type 0} (encoders : Encoders D) (a : Answer D) (ctx : WebContext U)
    → ctx.state.unhandled ≡ true
    → (answer encoders a ctx).1 ≡ ok
    → (bytes : Text) × (headers : List Call) × (answer_data encoders ctx a ≡ some bytes)
      × All IsSetHeader headers
      × ((handle_response false (answer encoders a ctx).0).state.resp
          ≡ ctx.state.resp
            ++ (headers ++ (write_header (sent_status (answer_status encoders a)) ∷ body bytes)))
answer-sent encoders a ctx un e =
    let (bytes, q, r) = answer-Prepared encoders a ctx un e in
    (bytes, r.headers, q, r.only_headers, Ready-handle_response _ bytes ctx _ r)
