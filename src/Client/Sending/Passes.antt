-- ===== src/Client/Sending/Passes.antt =====
-- That what `sendExecuteUserOp` of examples/privy-google-aa/src/userOp.ts sends is what `check` of
-- examples/privy-google-aa/server/userop-policy.mjs lets pass.
use account_abstraction.Base.{
  ℕ, ◌≤◌, ◌*◌, ◌+◌, ◌≡◌, inl, inr, refl, ap, sym, ◌∙◌, subst, String, true, false, not, Option,
  none, some, List, [], ◌==◌, ltb, Result, ok, err, >>=-eq-ok, Bool-cases, arith, if◌then◌else◌,
  eq_iff, eq_refl, length, nat_beq, ◌||◌,
}
use account_abstraction.Base.OrderedMap
use account_abstraction.Js.Value.{Value, str, arr, cons, nil, obj, field, end}
use account_abstraction.Js.Text.{to_lower, text_length}
use account_abstraction.Ethers.{Ethers, Exn}
use account_abstraction.App.Codec.{Codec, Refusal, refuse_with}
use account_abstraction.App.Policy.{
  Policy, allowed_method, normalize, check_envelope, check_init_code, check_call_data,
  check_execute, check, selector_of, factory_differs, target_allowed, selector_allowed,
  decode_single_uint,
}
use account_abstraction.App.Policy.Create.{
  includes, optional_factory, normalize_all, read_caps, create_user_op_policy,
}
use account_abstraction.Client.Sending.{
  Encoder, Network, PackedUserOperation, serialize_user_op, execute_op,
}
use account_abstraction.Client.Sending.Accepted.{
  EncoderLaws, no_limits, policy-inj, policy-caps, check_gas-execute_op,
}

-- The request that the page posts.
abbrev pub posted : Encoder → Value → PackedUserOperation → String → Value
posted en id op entry_point = obj (
    field "jsonrpc" (str "2.0") (
      field "id" id (
        field "method" (str "eth_sendUserOperation") (
          field "params" (arr (cons (serialize_user_op en op) (cons (str entry_point) nil))) end))))

abbrev some_text : String → Result Refusal (Option String)
some_text s = ok (some s)

some_text-inj : {a b : String} → some_text a ≡ ok (some b) → a ≡ b
some_text-inj h = cc

abbrev at_address : String → Result Exn String
at_address s = ok s

at_address-inj : {a b : String} → at_address a ≡ ok b → a ≡ b
at_address-inj h = cc

addressed : (r : Result Exn String) (m a : String) → refuse_with r m ≡ ok a → r ≡ ok a
addressed (ok s) m a h = cc
addressed (err x) m a h = cc

module _ (en : Encoder) (e : Ethers) (c : Codec) where
  -- What ethers makes of an account to create, and reads in it again.
  pub record IsDeployment (init_code factory owner : String) : Type 0 where
    pub made_by : String
    pub call : String
    pub selector : String
    pub created_for : String
    pub is_hex : e.is_hex_string (str init_code) ≡ true
    pub has_address : ltb (text_length init_code) 42 ≡ false
    pub factory_first : c.data_slice init_code 0 20 ≡ ok made_by
    pub same_factory : e.get_address (str made_by) ≡ e.get_address (str factory)
    pub then_call : c.data_tail init_code 20 ≡ ok call
    pub call_selector : c.data_slice call 0 4 ≡ ok selector
    pub is_create_account : to_lower selector ≡ to_lower c.create_account_selector
    pub decodes : c.decode_create_account call ≡ some created_for
    pub same_owner : e.get_address (str created_for) ≡ e.get_address (str owner)

  -- What ethers makes of a call of `execute` without value, and reads in it again.
  pub record IsExecution (call_data target target_calldata : String) : Type 0 where
    pub selector : String
    pub called : String
    pub is_hex : e.is_hex_string (str call_data) ≡ true
    pub call_selector : c.data_slice call_data 0 4 ≡ ok selector
    pub is_execute : to_lower selector ≡ to_lower c.execute_selector
    pub decodes : c.decode_execute call_data ≡ some (called, 0, target_calldata)
    pub same_target : e.get_address (str called) ≡ e.get_address (str target)

  optional_factory-some :
      (factory f : String)
      → optional_factory e c (str factory) ≡ ok (some f)
      → e.get_address (str factory) ≡ ok f
  unfolding normalize
  optional_factory-some factory f h = elim (Bool-cases (factory == "")) [
    | inl empty ↦ let got = rw empty at h in cc
    | inr given ↦
        let (a, p, q) = >>=-eq-ok (normalize e (str factory) "factory") _ (rw given at h) in
        addressed (e.get_address (str factory)) _ a p ∙ ap ok (some_text-inj q)
  ]

  text_not :
      (s word : String)
      → ltb (text_length s) 42 ≡ false
      → ltb (text_length word) 42 ≡ true
      → (s == word) ≡ false
  text_not s word long short = elim (Bool-cases (s == word)) [
    | inr other ↦ other
    | inl same ↦
        let at_word = subst (λ t. ltb (text_length t) 42 ≡ false) ((eq_iff s word).0 same) long in
        cc
  ]

  same_factory :
      (expected : Option String) (f : String)
      → ((g : String) → expected ≡ some g → g ≡ f)
      → not (factory_differs expected f) ≡ true
  same_factory none f h = refl
  same_factory (some g) f h = let same = h g refl in rw (same, eq_refl f) refl

  checked_init :
      (expected : Option String) (factory init_code owner f o : String)
      → IsDeployment init_code factory owner
      → e.get_address (str factory) ≡ ok f
      → ((g : String) → expected ≡ some g → g ≡ f)
      → e.get_address (str owner) ≡ ok o
      → check_init_code e c (str init_code) expected ≡ ok (some o)
  unfolding check_init_code normalize
  checked_init expected factory init_code owner f o made at same own =
      let empty = text_not init_code "" made.has_address refl in
      let bare = text_not init_code "0x" made.has_address refl in
      let used = made.same_factory ∙ at in
      let created = made.same_owner ∙ own in
      let is_create = (eq_iff _ _).1 made.is_create_account in
      rw
        (
          empty,
          bare,
          made.is_hex,
          made.has_address,
          made.factory_first,
          used,
          same_factory expected f same,
          made.then_call,
          made.call_selector,
          is_create,
          made.decodes,
          created,
        )
        refl

  checked_call :
      (policy : Policy) (call_data target target_calldata t selector : String)
      → IsExecution call_data target target_calldata
      → e.get_address (str target) ≡ ok t
      → text_length call_data ≤ 2 * policy.caps.call_data_bytes + 2
      → selector_of e c target_calldata ≡ ok selector
      → target_allowed e c policy t ≡ true
      → selector_allowed e c policy selector ≡ true
      → check_call_data e c policy (str call_data)
        ≡ ok (
          t,
          record {
            selector = selector;
            signature = OrderedMap.get selector policy.inner_selectors;
            value =
                decode_single_uint e c
                  (OrderedMap.get selector policy.inner_selectors)
                  target_calldata;
          },
        )
  unfolding check_call_data check_execute
  checked_call policy call_data target target_calldata t selector made to small chosen allowed
        listed =
      let short : ltb (2 * policy.caps.call_data_bytes + 2) (text_length call_data) ≡ false =
        ground arith in
      let is_execute = (eq_iff _ _).1 made.is_execute in
      let called_at = made.same_target ∙ to in
      rw
        (
          made.is_hex, short, made.call_selector, is_execute, made.decodes, called_at, allowed,
          chosen, listed,
        )
        refl

  checked_envelope :
      (policy : Policy) (id : Value) (op : PackedUserOperation) (entry_point a : String)
      → e.get_address (str entry_point) ≡ ok policy.entry_point
      → e.get_address (str op.sender) ≡ ok a
      → check_envelope e c policy (posted en id op entry_point) ≡ ok (serialize_user_op en op, a)
  unfolding check_envelope normalize serialize_user_op
  checked_envelope policy id op entry_point a entry from =
      rw (entry, from, eq_refl policy.entry_point) refl

  policy-made :
      (entry_point factory : String) (targets signatures : List String) (policy : Policy)
      → create_user_op_policy e c (str entry_point) (str factory) targets signatures no_limits
        ≡ ok policy
      → (e.get_address (str entry_point) ≡ ok policy.entry_point)
        × ((g : String) → policy.factory ≡ some g → e.get_address (str factory) ≡ ok g)
  unfolding create_user_op_policy normalize
  policy-made entry_point factory targets signatures policy h =
      let any_target = nat_beq (length targets) 0 || includes "*" targets in
      let (entry, p1, h1) = >>=-eq-ok (normalize e (str entry_point) "entryPoint") _ h in
      let (made_by, p2, h2) = >>=-eq-ok (optional_factory e c (str factory)) _ h1 in
      let (allowed, p3, h3) =
        >>=-eq-ok (normalize_all e c (if any_target then [] else targets)) _ h2 in
      let (caps, p4, h4) = >>=-eq-ok (read_caps no_limits) _ h3 in
      let same = policy-inj h4 in
      (
        addressed (e.get_address (str entry_point)) _ entry p1
            ∙ ap (λ (q : Policy). at_address q.entry_point) same,
        λ g made.
            optional_factory-some factory g
              (p2 ∙ ap ok (ap (λ (q : Policy). q.factory) same ∙ made)),
      )

  module _ (laws : EncoderLaws en e c) where
    -- The policy that the server makes for the page's EntryPoint and factory, under the caps that it
    -- sets where nothing else is configured, lets the operation that the page builds, signs and posts
    -- pass, whatever the signature and the salt, as long as the addresses are addresses, the server's
    -- ethers reads the calls that the page's ethers wrote, the policy allows the target and the
    -- selector of the inner call, and the call data is within 4096 bytes; it reports the account, the
    -- target, the owner and the inner call of the operation.
    pub execute_op-passes :
        (targets signatures : List String) (policy : Policy) (net : Network)
        → (id : Value) (owner account : String) (salt : ℕ) (target calldata signature : String)
        → (a f o t selector : String)
        → create_user_op_policy e c
            (str net.entry_point)
            (str net.factory)
            targets
            signatures
            no_limits
          ≡ ok policy
        → IsDeployment
            (en.concat net.factory (en.encode_create_account owner salt))
            net.factory
            owner
        → IsExecution (en.encode_execute target calldata) target calldata
        → e.get_address (str account) ≡ ok a
        → e.get_address (str net.factory) ≡ ok f
        → e.get_address (str owner) ≡ ok o
        → e.get_address (str target) ≡ ok t
        → selector_of e c calldata ≡ ok selector
        → target_allowed e c policy t ≡ true
        → selector_allowed e c policy selector ≡ true
        → text_length (en.encode_execute target calldata) ≤ 8194
        → check e c policy (
            posted en id
              (record (execute_op en net owner account salt target calldata) {
                signature = signature;
              })
              net.entry_point)
          ≡ ok (record {
            method = allowed_method;
            sender = a;
            target = t;
            owner = some o;
            inner = record {
              selector = selector;
              signature = OrderedMap.get selector policy.inner_selectors;
              value =
                  decode_single_uint e c (OrderedMap.get selector policy.inner_selectors) calldata;
            };
          })
    unfolding check serialize_user_op execute_op
    execute_op-passes targets signatures policy net id owner account salt target calldata signature
          a f o t selector made deployed executed from factory own to chosen allowed listed small =
        let op = record (execute_op en net owner account salt target calldata) {
          signature = signature;
        } in
        let (entry, by) = policy-made net.entry_point net.factory targets signatures policy made in
        let caps =
          policy-caps en e c laws (str net.entry_point) (str net.factory) targets signatures policy
            made in
        let envelope = checked_envelope policy id op net.entry_point a entry from in
        let gas =
          check_gas-execute_op en e c laws policy net owner account salt target calldata signature
            caps in
        let init =
          checked_init policy.factory net.factory op.init_code owner f o deployed factory
            (λ g there. at_address-inj (sym (by g there) ∙ factory)) own in
        let fits : text_length op.call_data ≤ 2 * policy.caps.call_data_bytes + 2 =
          rw (ap (λ k. k.call_data_bytes) caps) small in
        let call =
          checked_call policy op.call_data target calldata t selector executed to fits chosen
            allowed listed in
        rw (envelope, gas, init, call) refl
