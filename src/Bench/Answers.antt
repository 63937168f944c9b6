-- ===== src/Bench/Answers.antt =====
-- crates/ohmcp-bench/src/baseline.rs: a call of the baseline, from its client through its server and
-- back.
use ohmcp.Base.Maps.{contains-add, add, lookup-insert, lookup, contains}
use ohmcp.Base.Words.{add_u64}
use ohmcp.Base.{
  length, ==_iff, ◌==◌, append-nil, ◌∙◌, ap, ◌++◌, ◌^◌, ◌<◌, ◌≡◌, refl, arith, ℕ, true, List, [],
  ◌∷◌, Option, none, some,
}
use ohmcp.Bench.Baseline.{
  read_line, or_else, deliver, after_line, counted, outcome_of, taken, unknown_tool, BaselineClient,
  Awaited, returned, server_error, handle, respond, call_tool, call_params, request_tree,
  call_response, receive, read_lines,
}
use ohmcp.Core.Json.{
  read_u64, ◌>>=◌, get, Json, number, to_value, value_members, value_elements, elements,
}
use ohmcp.Base.Bytes.{Text, ascii}
use ohmcp.Base.Integers.{pos}
use ohmcp.Base.Equality.{nat_eq}
use ohmcp.Core.Message.{ContentBlock, text, image, CallToolResult}
use ohmcp.Server.Tools.{ToolRegistry, call}
use ohmcp.Exchange.Codec.{Codec, exact, exact_members, depth_limit}
use ohmcp.Exchange.Exact.{result_value-exact}
use ohmcp.Core.Message.Write

module _ (registry : ToolRegistry Json) (name : Text) (arguments : Json) (id : ℕ) where
  abbrev pub asked : Json
  asked = request_tree id (ascii "tools/call") (call_params name arguments)

  abbrev pub answered : Json
  answered = call_response (number (pos id)) (call name arguments registry)

  respond-asked : respond registry asked ≡ answered
  unfolding respond
  respond-asked = refl

  -- What the client writes is in the order of the maps, if the arguments are.
  asked_value : to_value arguments ≡ arguments → to_value asked ≡ asked
  unfolding to_value value_members
  asked_value h = rw h refl

  asked-exact : id < 2 ^ 64 → exact 125 arguments ≡ true → exact depth_limit asked ≡ true
  unfolding exact exact_members
  asked-exact small h = ground arith

-- What comes of the tool's result.
abbrev pub outcome : Option CallToolResult → Awaited
outcome none = server_error unknown_tool
outcome (some r) = returned (to_value (Write.call_tool_result r))

-- A block that is a value is one.
blocks_value :
    (l : List ContentBlock)
    → value_elements (value_elements (elements Write.content_block l))
      ≡ value_elements (elements Write.content_block l)
unfolding value_elements elements to_value value_members
blocks_value [] = refl
blocks_value (text t ∷ l) = rw (blocks_value l) refl
blocks_value (image b t ∷ l) = rw (blocks_value l) refl

module _ (id : ℕ) where
  response-exact :
      (o : Option CallToolResult)
      → id < 2 ^ 64
      → exact depth_limit (call_response (number (pos id)) o) ≡ true
  unfolding exact exact_members
  response-exact none small = ground arith
  response-exact (some r) small = ground (arith, result_value-exact 123 r)

  response_value :
      (o : Option CallToolResult)
      → to_value (call_response (number (pos id)) o) ≡ call_response (number (pos id)) o
  unfolding to_value value_members
  response_value none = refl
  response_value (some r) = rw (blocks_value r.content) refl

  response_id :
      (o : Option CallToolResult)
      → id < 2 ^ 64
      → (get (ascii "id") (call_response (number (pos id)) o) >>= read_u64) ≡ some id
  response_id none small = ground arith
  response_id (some r) small = ground arith

  response_outcome :
      (o : Option CallToolResult)
      → let resp = call_response (number (pos id)) o in
        outcome_of resp (get (ascii "error") resp) ≡ outcome o
  response_outcome none = refl
  response_outcome (some r) = refl

module _ (codec : Codec) (id : ℕ) where
  read_lines-one :
      (line : List ℕ) (resp : Json) (c : BaselineClient)
      → read_line codec line ≡ some resp
      → (get (ascii "id") resp >>= read_u64) ≡ some id
      → contains id c.pending ≡ true
      → lookup id (read_lines codec (line ∷ []) c).mailbox ≡ some resp
  unfolding read_lines
  read_lines-one line resp c reads mine waits =
      let c' = counted codec line c in
      let own : id == id ≡ true = (==_iff id id).1 refl in
      ap (λ o. lookup id (after_line codec o (λ d. d) c').mailbox) reads
      ∙ ap (λ o. lookup id (deliver codec (or_else 0 o) resp c').mailbox) mine
      ∙ rw waits (lookup-insert id id resp c.mailbox ∙ rw own refl)

  -- The response of a tool's result, when it is the only line.
  receive-response :
      (o : Option CallToolResult) (b : BaselineClient)
      → id < 2 ^ 64
      → contains id b.pending ≡ true
      → b.incoming ≡ codec.print (call_response (number (pos id)) o) ∷ []
      → (receive codec id b).0 ≡ outcome o
  unfolding receive
  receive-response o b small waits line =
      let resp = call_response (number (pos id)) o in
      let c = record b { incoming = [] } in
      ap (λ l. (taken codec id (lookup id (read_lines codec l c).mailbox) (read_lines codec l c)).0)
        line
      ∙ ap (λ r. (taken codec id r (read_lines codec (codec.print resp ∷ []) c)).0)
          (read_lines-one (codec.print resp) resp c
            (ap (λ x. x >>= λ v. some (to_value v))
                (codec.reads_back resp (response-exact id o small))
              ∙ ap some (response_value id o))
            (response_id id o small) waits)
      ∙ response_outcome id o

-- What comes is read without a write.
module _ (codec : Codec) where
  deliver_written :
      (id : ℕ) (resp : Json) (c : BaselineClient) → (deliver codec id resp c).written ≡ c.written
  deliver_written id resp c = ground arith

  read_lines_written :
      (lines : List (List ℕ)) (c : BaselineClient) → (read_lines codec lines c).written ≡ c.written
  unfolding read_lines
  read_lines_written [] c = refl
  read_lines_written (line ∷ lines) c =
      line_written (read_line codec line) lines (counted codec line c) (read_lines_written lines)
    where
      line_written :
          (o : Option Json) (lines : List (List ℕ)) (d : BaselineClient)
          → ((e : BaselineClient) → (read_lines codec lines e).written ≡ e.written)
          → (after_line codec o (read_lines codec lines) d).written ≡ d.written
      line_written none lines d h = refl
      line_written (some resp) lines d h =
          h (deliver codec (or_else 0 (get (ascii "id") resp >>= read_u64)) resp d)
          ∙ deliver_written (or_else 0 (get (ascii "id") resp >>= read_u64)) resp d

  taken_written :
      (id : ℕ) (o : Option Json) (c : BaselineClient) → (taken codec id o c).1.written ≡ c.written
  taken_written id none c = refl
  taken_written id (some resp) c = refl

  receive_written : (id : ℕ) (c : BaselineClient) → (receive codec id c).1.written ≡ c.written
  unfolding receive
  receive_written id c =
      let c' = read_lines codec c.incoming (record c { incoming = [] }) in
      taken_written id (lookup id c'.mailbox) c'
      ∙ read_lines_written c.incoming (record c { incoming = [] })

module _ (codec : Codec) (registry : ToolRegistry Json) (name : Text) (arguments : Json) where
  -- The line of the client is answered by one line.
  pub handle-asked :
      (id : ℕ)
      → id < 2 ^ 64
      → exact 125 arguments ≡ true
      → to_value arguments ≡ arguments
      → handle codec registry (codec.print (asked registry name arguments id) ∷ [])
        ≡ codec.print (answered registry name arguments id) ++ ascii "\n"
  unfolding handle respond call
  handle-asked id small h sorted =
      rw
        (
          codec.reads_back (asked registry name arguments id)
              (asked-exact registry name arguments id small h),
          asked_value registry name arguments id sorted,
          append-nil (codec.print (answered registry name arguments id) ++ ascii "\n"),
        )
        (ap (λ v. codec.print v ++ ascii "\n") (respond-asked registry name arguments id))

  -- What the client writes for it, behind what it wrote before.
  pub call_tool-written :
      (b : BaselineClient)
      → (call_tool codec true name arguments b).1.written
        ≡ b.written ++ (codec.print (asked registry name arguments b.next_id) ++ ascii "\n")
  unfolding call_tool
  call_tool-written b =
      let id = b.next_id in
      let sent = codec.print (asked registry name arguments id) ++ ascii "\n" in
      receive_written codec id (record b {
        next_id = add_u64 id 1;
        bytes_sent = add_u64 b.bytes_sent (length sent);
        pending = add id b.pending;
        written = b.written ++ sent;
      })

  -- A call of the baseline comes to what the tool returns, or to the error if there is no such tool.
  pub call_tool-outcome :
      (b : BaselineClient)
      → b.next_id < 2 ^ 64
      → exact 125 arguments ≡ true
      → b.incoming ≡ codec.print (answered registry name arguments b.next_id) ∷ []
      → (call_tool codec true name arguments b).0 ≡ outcome (call name arguments registry)
  unfolding call_tool
  call_tool-outcome b small h line =
      let id = b.next_id in
      let own : id == id ≡ true = (==_iff id id).1 refl in
      let sent = codec.print (asked registry name arguments id) ++ ascii "\n" in
      let c = record b {
        next_id = add_u64 id 1;
        bytes_sent = add_u64 b.bytes_sent (length sent);
        pending = add id b.pending;
        written = b.written ++ sent;
      } in
      receive-response codec id (call name arguments registry) c small
        (contains-add id id b.pending ∙ rw own refl) line
