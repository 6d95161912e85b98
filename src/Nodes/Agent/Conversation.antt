-- ===== src/Nodes/Agent/Conversation.antt =====
-- `AgentNode::Run`: the messages that the model gets.
use zen_agent.Common.{
  ◌++◌, Option, true, false, ℕ, suc, ◌≡◌, List, [], ◌∷◌, none, some, if◌then◌else◌, bytes_equality,
  ◌==◌,
}
use zen_agent.Common.Bytes.{Bytes, ascii}
use zen_agent.Common.Json.{Json, is_object, string_at, object_at, array_at}
use zen_agent.Nodes.Agent.{
  Target, Invoked, returned, threw, threw_other, target_of, AgentNodeConfig, Call, World,
}
use zen_agent.Nodes.Agent.Reading.{IsCall, CallsTools}

module _ (w : World) (cfg : AgentNodeConfig) where
  -- What a call that is made gives the model.
  abbrev pub GivenBy : Invoked → Bytes → Type 0
  GivenBy (returned t) v = v ≡ t
  GivenBy (threw e) v = v ≡ ascii "Tool error: " ++ e
  GivenBy threw_other v = v ≡ ascii "{\"error\":\"tool_execution_failed\"}"

  -- Nothing is called where the node has no tools.
  abbrev pub Given : ℕ → ℕ → Call → Option Target → Bytes → Type 0
  Given iter i c none v = v ≡ []
  Given iter i c (some t) v = GivenBy (w.invoke iter i t c) v

  -- The entry has the name of the call, its id where it has one, and what the call gave.
  abbrev pub IsAnswer : ℕ → ℕ → Call → Json → Type 0
  IsAnswer iter i c e =
      (string_at (ascii "name") e ≡ some (c.name))
      × ((string_at (ascii "id") e ≡ (if c.call_id == [] then none else some (c.call_id)))
          × ((r : Json) × ((object_at (ascii "response") e ≡ some r)
                × ((v : Bytes) × ((string_at (ascii "value") r ≡ some v)
                      × Given iter i c (target_of cfg c.name) v)))))

  -- For each entry of the tool calls that is an object, in their order, the answer to its call.
  pub data AllAnswered (iter : ℕ) : ℕ → List Json → List Json → Type 0 where
    all_answered : {i : ℕ} → AllAnswered iter i [] []
    no_object :
        {i : ℕ} {tc : Json} {tcs es : List Json}
        → is_object tc ≡ false
        → AllAnswered iter i tcs es
        → AllAnswered iter i (tc ∷ tcs) es
    answered :
        {i : ℕ} {tc e : Json} {tcs es : List Json} (c : Call)
        → is_object tc ≡ true
        → IsCall w.dump tc c
        → IsAnswer iter i c e
        → AllAnswered iter (suc i) tcs es
        → AllAnswered iter i (tc ∷ tcs) (e ∷ es)

  -- A reply calls tools, and the message behind it is a tool's with their answers as its content.
  abbrev pub Continues : ℕ → Bytes → Bytes → Type 0
  Continues iter raw next =
      (tcs : List Json) × (CallsTools w raw tcs
        × ((j : Json) × ((next ≡ w.dump_lenient j)
              × ((string_at (ascii "role") j ≡ some (ascii "tool"))
                  × ((es : List Json) × ((array_at (ascii "content") j ≡ some es)
                        × AllAnswered iter 0 tcs es))))))

  -- From a round on: the first message is `m`, and each later one continues the one before.
  abbrev pub IsConversation : ℕ → Bytes → List (Bytes × Bytes) → Type 0
  IsConversation iter m [] = Unit
  IsConversation iter m ((n, raw) ∷ []) = n ≡ m
  IsConversation iter m ((n, raw) ∷ (k, next) ∷ more) =
      (n ≡ m) × (Continues iter raw k × IsConversation (suc iter) k ((k, next) ∷ more))
