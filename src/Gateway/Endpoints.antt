-- ===== src/Gateway/Endpoints.antt =====
-- src/features/gateway/lib/endpoints.ts: the table of endpoints and the choice by method and path.
use apipool_v.Base.{
  String, Bool, true, false, ◌&&◌, not, Option, some, List, [], ◌∷◌, if◌then◌else◌, str_eq, find_by,
}
use Prim.Native.String.{◌++◌ as concat}

pub data EndpointKey : Type 0 where
  chat_completions responses messages embeddings images_generations images_edits : EndpointKey
  tasks models : EndpointKey

pub data Method : Type 0 where
  get_method post_method : Method

pub data Protocol : Type 0 where
  openai anthropic : Protocol

pub data RequestFormat : Type 0 where
  no_body json_body multipart : RequestFormat

pub data ResponseMode : Type 0 where
  no_response json_or_sse json_only : ResponseMode

pub data TimeoutProfile : Type 0 where
  default_timeout images_timeout : TimeoutProfile

pub record Endpoint : Type 0 where
  pub key : EndpointKey
  pub method : Method
  pub upstream_path : String
  pub protocol : Protocol
  pub billable : Bool
  pub request_format : RequestFormat
  pub response_mode : ResponseMode
  pub timeout_profile : TimeoutProfile

abbrev pub method_text : Method → String
method_text get_method = "GET"
method_text post_method = "POST"

abbrev post_json : EndpointKey → String → Protocol → ResponseMode → TimeoutProfile → Endpoint
post_json key path protocol mode timeout = record {
  key = key;
  method = post_method;
  upstream_path = path;
  protocol = protocol;
  billable = true;
  request_format = json_body;
  response_mode = mode;
  timeout_profile = timeout;
}

-- `GATEWAY_ENDPOINTS`
unfoldable pub gateway_endpoints : List Endpoint
gateway_endpoints =
    post_json chat_completions "/v1/chat/completions" openai json_or_sse default_timeout
    ∷ post_json responses "/v1/responses" openai json_or_sse default_timeout
    ∷ post_json messages "/v1/messages" anthropic json_or_sse default_timeout
    ∷ post_json embeddings "/v1/embeddings" openai json_only default_timeout
    ∷ post_json images_generations "/v1/images/generations" openai json_only images_timeout
    ∷ record {
      key = images_edits;
      method = post_method;
      upstream_path = "/v1/images/edits";
      protocol = openai;
      billable = true;
      request_format = multipart;
      response_mode = json_only;
      timeout_profile = images_timeout;
    }
    ∷ record {
      key = models;
      method = get_method;
      upstream_path = "/v1/models";
      protocol = openai;
      billable = false;
      request_format = no_body;
      response_mode = no_response;
      timeout_profile = default_timeout;
    }
    ∷ []

abbrev pub tasks_endpoint : Endpoint
tasks_endpoint = record {
  key = tasks;
  method = get_method;
  upstream_path = "/v1/tasks/:task_id";
  protocol = openai;
  billable = false;
  request_format = no_body;
  response_mode = no_response;
  timeout_profile = default_timeout;
}

-- `segments.join('/')`
unfoldable pub join_slash : List String → String
join_slash [] = ""
join_slash (s ∷ []) = s
join_slash (s ∷ t ∷ rest) = concat s (concat "/" (join_slash (t ∷ rest)))

-- `pathSegments.length === 2 && pathSegments[0] === 'tasks' && pathSegments[1]`
unfoldable pub is_task_path : List String → Bool
is_task_path (s ∷ t ∷ []) = str_eq s "tasks" && not (str_eq t "")
is_task_path _ = false

unfoldable pub serves : String → String → Endpoint → Bool
serves verb path e = str_eq (method_text e.method) verb && str_eq e.upstream_path path

-- `verb` is `method.toUpperCase()`.
unfoldable pub resolve_endpoint : String → List String → Option Endpoint
resolve_endpoint verb segments =
    if str_eq verb "GET" && is_task_path segments
    then some tasks_endpoint
    else find_by (serves verb (concat "/v1/" (join_slash segments))) gateway_endpoints
