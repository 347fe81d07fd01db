-- ===== src/Requests/Validation.antt =====
-- What ValidateChatRequest accepts (internal/service/chat.go).
use model_gate.Prelude.{
  ℕ, suc, ◌+◌, ◌*◌, ◌≡◌, ◌≢◌, refl, sym, ◌∙◌, arith, true, false, List, [], ◌∷◌, Option, none, some,
  String, IsOneOf, All, contains, ◌↔◌, inl, inr, Bool-cases, str_eq, eq_iff, ℤ, pos, ◌≤ℤ◌, Fraction,
  all_chars, is_space, trim_space-blank,
}
use model_gate.Requests.{
  ChatMessage, ChatRequest, valid_roles, is_blank, outside, is_nonpositive, check_message,
  check_messages, check_options, check_content, validate,
}

-- There is a character that is not space.
abbrev pub HasInk : String → Type 0
HasInk s = all_chars (λ c. is_space c) s ≡ false

abbrev pub IsSoundMessage : ChatMessage → Type 0
IsSoundMessage m =
    IsOneOf ("user" ∷ "assistant" ∷ "system" ∷ "developer" ∷ []) m.role × HasInk m.content

-- 0 ≤ q ≤ top, where it is given.
abbrev pub IsWithin : ℕ → Option Fraction → Type 0
IsWithin top none = Unit
IsWithin top (some q) = (pos 0 ≤ℤ q.num) × (q.num ≤ℤ pos (top * suc q.den))

abbrev pub IsPositive : Option ℤ → Type 0
IsPositive none = Unit
IsPositive (some n) = pos 1 ≤ℤ n

pub record IsAcceptable (r : ChatRequest) : Type 0 where
  pub named : HasInk r.model
  pub some_message : r.messages ≢ []
  pub sound : All IsSoundMessage r.messages
  pub temperature : IsWithin 2 r.temperature
  pub top_p : IsWithin 1 r.top_p
  pub max_tokens : IsPositive r.max_tokens

-- The same by the tests of the code.
abbrev IsSound : ChatMessage → Type 0
IsSound m = (contains valid_roles m.role ≡ true) × (is_blank m.content ≡ false)

record Passes (r : ChatRequest) : Type 0 where
  named : is_blank r.model ≡ false
  some_message : r.messages ≢ []
  sound : All IsSound r.messages
  temperature : outside r.temperature 2 ≡ false
  top_p : outside r.top_p 1 ≡ false
  max_tokens : is_nonpositive r.max_tokens ≡ false

contains-IsOneOf : (ts : List String) (s : String) → contains ts s ≡ true → IsOneOf ts s
contains-IsOneOf [] s h = cc
contains-IsOneOf (t ∷ ts) s h = elim (Bool-cases (str_eq t s)) [
  | inl e ↦ inl (sym ((eq_iff t s).0 e))
  | inr e ↦ inr (contains-IsOneOf ts s (rw e at h))
]

IsOneOf-contains : (ts : List String) (s : String) → IsOneOf ts s → contains ts s ≡ true
IsOneOf-contains [] s h = absurd h
IsOneOf-contains (t ∷ ts) s (inl e) = rw ((eq_iff t s).1 (sym e)) refl
IsOneOf-contains (t ∷ ts) s (inr h) = elim (Bool-cases (str_eq t s)) [
  | inl e ↦ rw e refl
  | inr e ↦ rw e (IsOneOf-contains ts s h)
]

-- The roles, in the order of the code.
roles_lem :
    (s : String)
    → IsOneOf ("user" ∷ "assistant" ∷ "system" ∷ "developer" ∷ []) s ↔ IsOneOf valid_roles s
roles_lem s = (
  λ h. elim h [
    | inl e ↦ inr (inr (inl e))
    | inr (inl e) ↦ inr (inr (inr (inl e)))
    | inr (inr (inl e)) ↦ inr (inl e)
    | inr (inr (inr (inl e))) ↦ inl e
    | inr (inr (inr (inr e))) ↦ absurd e
  ],
  λ h. elim h [
    | inl e ↦ inr (inr (inr (inl e)))
    | inr (inl e) ↦ inr (inr (inl e))
    | inr (inr (inl e)) ↦ inl e
    | inr (inr (inr (inl e))) ↦ inr (inl e)
    | inr (inr (inr (inr e))) ↦ absurd e
  ],
)

sound_lem : (ms : List ChatMessage) → All IsSound ms ↔ All IsSoundMessage ms
sound_lem [] = (λ h. tt, λ h. tt)
sound_lem (m ∷ ms) = (
  λ h. (
    (
      (roles_lem m.role).1 (contains-IsOneOf valid_roles m.role h.0.0),
      sym (trim_space-blank m.content) ∙ h.0.1,
    ),
    (sound_lem ms).0 h.1,
  ),
  λ h. (
    (
      IsOneOf-contains valid_roles m.role ((roles_lem m.role).0 h.0.0),
      trim_space-blank m.content ∙ h.0.1,
    ),
    (sound_lem ms).1 h.1,
  ),
)

within_lem : (top : ℕ) (o : Option Fraction) → (outside o top ≡ false) ↔ IsWithin top o
within_lem top none = (λ h. tt, λ h. refl)
within_lem top (some q) = (λ h. (ground arith, ground arith), λ h. ground arith)

positive_lem : (o : Option ℤ) → (is_nonpositive o ≡ false) ↔ IsPositive o
positive_lem none = (λ h. tt, λ h. refl)
positive_lem (some n) = (λ h. ground arith, λ h. ground arith)

passes_lem : (r : ChatRequest) → Passes r ↔ IsAcceptable r
passes_lem r = (
  λ p. record {
    named = sym (trim_space-blank r.model) ∙ p.named;
    some_message = p.some_message;
    sound = (sound_lem r.messages).0 p.sound;
    temperature = (within_lem 2 r.temperature).0 p.temperature;
    top_p = (within_lem 1 r.top_p).0 p.top_p;
    max_tokens = (positive_lem r.max_tokens).0 p.max_tokens;
  },
  λ a. record {
    named = trim_space-blank r.model ∙ a.named;
    some_message = a.some_message;
    sound = (sound_lem r.messages).1 a.sound;
    temperature = (within_lem 2 r.temperature).1 a.temperature;
    top_p = (within_lem 1 r.top_p).1 a.top_p;
    max_tokens = (positive_lem r.max_tokens).1 a.max_tokens;
  },
)

messages-IsSound : (n : ℕ) (ms : List ChatMessage) → check_messages n ms ≡ none → All IsSound ms
unfolding check_messages check_message
messages-IsSound n [] e = tt
messages-IsSound n (m ∷ ms) e = ground (arith, messages-IsSound (n + 1) ms)

sound_messages : (n : ℕ) (ms : List ChatMessage) → All IsSound ms → check_messages n ms ≡ none
unfolding check_messages check_message
sound_messages n [] s = refl
sound_messages n (m ∷ ms) (s, ss) = ground (arith, sound_messages (n + 1) ms ss)

module _ (r : ChatRequest) where
  accepted : (ms : List ChatMessage) → r.messages ≡ ms → validate (some r) ≡ none → Passes r
  unfolding validate check_content check_options
  accepted [] n e = ground (arith, n)
  accepted (m ∷ ms) n e = record {
    named = ground (arith, n);
    some_message = ground (arith, n);
    sound = ground (arith, n, messages-IsSound 0 r.messages);
    temperature = ground (arith, n);
    top_p = ground (arith, n);
    max_tokens = ground (arith, n);
  }

  acceptable : (ms : List ChatMessage) → r.messages ≡ ms → Passes r → validate (some r) ≡ none
  unfolding validate check_content check_options
  acceptable [] n a = absurd (a.some_message n)
  acceptable (m ∷ ms) n a = ground (arith, n, a, sound_messages 0 r.messages a.sound)

-- A request passes exactly when its model is not blank, it has a message, every message has one of
-- the four roles and a content that is not blank, the temperature is in [0, 2], `top_p` in [0, 1]
-- and `max_tokens` positive, each where it is given.
pub validate_lem : (r : ChatRequest) → (validate (some r) ≡ none) ↔ IsAcceptable r
unfolding validate check_content check_options
validate_lem r = (
  λ e. (passes_lem r).0 (accepted r r.messages refl e),
  λ a. acceptable r r.messages refl ((passes_lem r).1 a),
)
