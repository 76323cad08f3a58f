-- ===== src/Web/Context.antt =====
-- web/context.go: the context of a request. What the code calls on the http.ResponseWriter is kept
-- as a list of calls, and a request is what net/http answers about it. `U` is the type of the values
-- that handlers store.
use fyer_webframe.Base.{ℕ, Bool, true, false, List, [], ◌∷◌, ◌++◌, Option, none, some, ite, take}
use fyer_webframe.Base.Text.{Text, text_dec, codes, contains, index_byte, split}
use fyer_webframe.Base.Int.{ℤ, pos}
use fyer_webframe.Base.Map.{Map, lookup}
use fyer_webframe.Middleware.Chain.{Context, HandlerFunc}

-- A call on the response writer, or of a function of net/http that takes the writer.
pub data Call : Type 0 where
  write_header : ℤ → Call
  write : Text → Call
  set_header : Text → Text → Call
  add_header : Text → Text → Call
  set_cookie : Text → Call
  serve_file : Text → Call
  serve_fs : Text → Call
  redirect : ℤ → Text → Call
  http_error : Text → ℤ → Call
  flush : Call

-- Req: Header.Get, URL.Query().Get, and ParseForm with FormValue, where none is its error.
pub record Request : Type 0 where
  pub method : Text
  pub url_path : Text
  pub remote_addr : Text
  pub header : Text → Text
  pub query : Text → Text
  pub form : Option (Text → Text)

-- A logger: another of the program, that of ServeHTTP for a request, and what SetRequest makes of one.
-- The time in the id of a request without X-Request-ID is left out.
pub data Logger : Type 0 where
  default_logger : Logger
  logger : ℕ → Logger
  request_log : Request → Logger → Logger
  with_request : Request → Logger → Logger

-- What a server hands to its contexts: its template engine, its pool manager and its logger. Engines
-- and managers are told apart by numbers, and none is nil.
pub record Parts : Type 0 where
  pub tpl_engine : Option ℕ
  pub pool_manager : Option ℕ
  pub server_logger : Logger

-- `std_context` is the field Context, given by the request whose context it is.
pub record Web (U : Type 0) : Type 0 where
  pub req : Option Request
  pub resp : List Call
  pub param : Map Text
  pub route_url : Text
  pub resp_status_code : ℤ
  pub resp_data : Text
  pub unhandled : Bool
  pub user_values : Map U
  pub tpl_engine : Option ℕ
  pub pool_manager : Option ℕ
  pub std_context : Option Request
  pub logger : Option Logger

abbrev pub WebContext : Type 0 → Type 0
WebContext U = Context (Web U)

abbrev pub Handler : Type 0 → Type 0
Handler U = HandlerFunc (Web U)

-- The logger that SetRequest sets.
abbrev pub told : Request → Option Logger → Option Logger
told request none = none
told request (some l) = some (with_request request l)

-- The loops of Reset, which delete each key that they visit.
unfoldable pub delete_all : {V : Type 0} → Map V → Map V
delete_all [] = []
delete_all (kv ∷ m) = delete_all m

module _ {U : Type 0} where
  -- A change of what the context holds besides the flag `aborted`.
  abbrev pub on_web : (Web U → Web U) → WebContext U → WebContext U
  on_web f ctx = record ctx { state = f ctx.state }

  abbrev pub call : Call → WebContext U → WebContext U
  call c ctx = on_web (λ w. record w { resp = w.resp ++ (c ∷ []) }) ctx

  -- The literal of ServeHTTP, without an object pool.
  abbrev pub new_context : Parts → Request → WebContext U
  new_context parts request = record {
    aborted = false;
    state = record {
      req = some request;
      resp = [];
      param = [];
      route_url = [];
      resp_status_code = pos 0;
      resp_data = [];
      unhandled = true;
      user_values = [];
      tpl_engine = parts.tpl_engine;
      pool_manager = parts.pool_manager;
      std_context = some request;
      logger = some (request_log request parts.server_logger);
    };
  }

  -- newContextForPool, with the engine and the manager of its options
  abbrev pub new_context_for_pool : Option ℕ → Option ℕ → WebContext U
  new_context_for_pool engine manager = record {
    aborted = false;
    state = record {
      req = none;
      resp = [];
      param = [];
      route_url = [];
      resp_status_code = pos 0;
      resp_data = [];
      unhandled = true;
      user_values = [];
      tpl_engine = engine;
      pool_manager = manager;
      std_context = none;
      logger = some default_logger;
    };
  }

  -- Reset, which keeps the engine and the manager; a writer that is nil has no calls.
  unfoldable pub reset : WebContext U → WebContext U
  reset ctx = record {
    aborted = false;
    state = record (ctx.state) {
      req = none;
      resp = [];
      std_context = none;
      resp_status_code = pos 0;
      resp_data = [];
      route_url = [];
      unhandled = true;
      logger = none;
      param = delete_all ctx.state.param;
      user_values = delete_all ctx.state.user_values;
    };
  }

  -- SetRequest, and SetResponse with a writer that has no calls yet.
  abbrev pub set_request : Request → WebContext U → WebContext U
  set_request request ctx =
      on_web
        (λ w. record w {
          req = some request;
          std_context = some request;
          logger = told request w.logger;
        })
        ctx

  abbrev pub set_response : WebContext U → WebContext U
  set_response ctx = on_web (λ w. record w { resp = [] }) ctx

  -- SetLogger and SetPoolManager
  abbrev pub set_logger : Logger → WebContext U → WebContext U
  set_logger l ctx = on_web (λ w. record w { logger = some l }) ctx

  abbrev pub set_pool_manager : Option ℕ → WebContext U → WebContext U
  set_pool_manager manager ctx = on_web (λ w. record w { pool_manager = manager }) ctx

  -- Status
  abbrev pub status : ℤ → WebContext U → WebContext U
  status code ctx = on_web (λ w. record w { resp_status_code = code }) ctx

  -- SetHeader, AddHeader and SetCookie
  abbrev pub put_header : Text → Text → WebContext U → WebContext U
  put_header key value ctx = call (set_header key value) ctx

  abbrev pub append_header : Text → Text → WebContext U → WebContext U
  append_header key value ctx = call (add_header key value) ctx

-- A value with its error: what the accessors return.
pub data Read (A : Type 0) : Type 0 where
  got : A → Read A
  parse_form_failed : Read A
  key_not_found : Read A
  invalid_value : Read A

-- FormValue
abbrev pub of_form : Text → Option (Text → Text) → Read Text
of_form key none = parse_form_failed
of_form key (some values) = ite (text_dec (values key) []) key_not_found (got (values key))

unfoldable pub form_value : Request → Text → Read Text
form_value request key = of_form key request.form

-- QueryParam
unfoldable pub query_param : Request → Text → Read Text
query_param request key =
    ite (text_dec (request.query key) []) key_not_found (got (request.query key))

-- PathParam
abbrev pub of_param : Option Text → Read Text
of_param none = key_not_found
of_param (some v) = got v

unfoldable pub path_param : Map Text → Text → Read Text
path_param param key = of_param (lookup key param)

-- The value of another type, or the error before it: `parse` is the function of strconv.
abbrev pub parsed : {A : Type 0} → Option A → Read A
parsed none = invalid_value
parsed (some a) = got a

unfoldable pub read_as : {A : Type 0} → (Text → Option A) → Read Text → Read A
read_as parse (got v) = parsed (parse v)
read_as parse parse_form_failed = parse_form_failed
read_as parse key_not_found = key_not_found
read_as parse invalid_value = invalid_value

-- FormInt, FormInt64, FormFloat and FormBool
unfoldable pub form_as : {A : Type 0} → (Text → Option A) → Request → Text → Read A
form_as parse request key = read_as parse (form_value request key)

-- QueryInt, QueryInt64, QueryFloat and QueryBool
unfoldable pub query_as : {A : Type 0} → (Text → Option A) → Request → Text → Read A
query_as parse request key = read_as parse (query_param request key)

-- PathInt, PathInt64, PathFloat and PathBool
unfoldable pub path_as : {A : Type 0} → (Text → Option A) → Map Text → Text → Read A
path_as parse param key = read_as parse (path_param param key)

-- IsContentType
unfoldable pub is_content_type : Request → Text → Bool
is_content_type request kind =
    let ct = request.header (codes "Content-Type") in ite (text_dec ct []) false (contains ct kind)

-- The first address that is not empty once `trim_space`, strings.TrimSpace, has been applied.
unfoldable pub first_address : (Text → Text) → List Text → Option Text
first_address trim_space [] = none
first_address trim_space (ip ∷ ips) =
    ite (text_dec (trim_space ip) []) (first_address trim_space ips) (some (trim_space ip))

-- strings.Cut at one byte, the part before it.
abbrev pub cut_before : Option ℕ → Text → Text
cut_before none s = s
cut_before (some i) s = take i s

-- ClientIP
unfoldable pub client_ip : (Text → Text) → Request → Text
client_ip trim_space request =
    let forwarded = request.header (codes "X-Forwarded-For") in
    let real = request.header (codes "X-Real-IP") in
    let direct = cut_before (index_byte request.remote_addr b':') request.remote_addr in
    let behind = ite (text_dec real []) direct real in
    ite (text_dec forwarded []) behind
      (elim (first_address trim_space (split b',' forwarded)) [ some ip ↦ ip | none ↦ behind ])
