-- ===== src/Handler/Tests.antt =====
-- The three handlers on two backends, one of which is down.
use inferencia.Common.{String, Char, List, [], ◌∷◌, Result, ok, err, none, false}
use inferencia.ApiError.{GoError}
use inferencia.Backend.Tests.{two, self, two-IsConsistent, visits, visits-IsRange}
use inferencia.Handler.{EmbedRequest, ChatRequest, models, embeddings, chat_completions}
use inferencia.Handler.Lease.{IsReturned, handlers-IsReturned}

abbrev same : Char → Char
same c = c

abbrev refused : GoError
refused = record {
  is_deadline_exceeded = false;
  net_timeout = none;
  is_op_error = false;
  text = "connection refused";
}

abbrev listed : String → Result GoError String
listed b = ok b

abbrev embed_fails : String → EmbedRequest → Result GoError String
embed_fails b req = err refused

abbrev chat : String → ChatRequest → Result GoError String
chat b req = ok req.model

abbrev stream : String → ChatRequest → List String
stream b req = "data: [DONE]" ∷ []

abbrev hello : Result String EmbedRequest
hello = ok (record { model = "nomic"; input = "\"hello\""; encoding_format = "" })

abbrev bad_json : Result String ChatRequest
bad_json = err "unexpected EOF"

handlers-IsReturned_example :
    IsReturned two (models same {S = List String} self none visits listed two)
    × IsReturned two (embeddings same {S = List String} self none visits embed_fails hello two)
    × IsReturned two (chat_completions same self none visits chat stream bad_json two)
handlers-IsReturned_example =
    handlers-IsReturned same self two two-IsConsistent none visits visits-IsRange listed embed_fails
      chat stream hello bad_json
