-- ===== src/Api/Answered.antt =====
-- The identifier that a client gets (internal/api/handler.go, internal/api/request_id.go).
use model_gate.Prelude.{◌≡◌, List, [], ◌∷◌, String, str_eq, if◌then◌else◌}
use model_gate.Api.{HttpAnswer, answered, refused, streams}

-- Every value that is set for the header of the identifier.
abbrev pub ids : List (String × String) → List String
ids [] = []
ids ((name, value) ∷ headers) =
    if str_eq name "X-Request-ID" then value ∷ ids headers else ids headers

-- Every answer has the identifier, and no other.
abbrev pub Bears : {S : Type 0} → String → HttpAnswer S → Type 0
Bears id (answered headers response) = ids headers ≡ id ∷ id ∷ []
Bears id (refused headers a) = ids headers ≡ id ∷ []
Bears id (streams headers stream) = ids headers ≡ id ∷ id ∷ []
