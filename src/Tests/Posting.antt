-- ===== src/Tests/Posting.antt =====
-- One run of the operation that the page builds through the policy of the server.
use text.Mathlib.TextEquality.{eq_iff}
use account_abstraction.Base.{
  ℕ, ◌/◌, ◌%◌, ◌^◌, ◌≡◌, inl, inr, refl, ap, sym, ◌∙◌, String, true, Option, some, [], ◌∷◌, ◌==◌,
  nat_beq, Bool-cases, Result, ok, err, if◌then◌else◌, ◌||◌, arith,
}
use account_abstraction.Js.Value.{ℤ, pos, str}
use account_abstraction.Base.OrderedMap
use account_abstraction.Js.Number.{big_of_text, to_big}
use account_abstraction.Js.Number.Decimal.{big_of_text-decimal, to_lower-decimal}
use account_abstraction.Js.Text.{decimal, to_lower, template}
use account_abstraction.Ethers.{Ethers, Exn, plain_error}
use account_abstraction.Bundler.Types.{zero_bytes32}
use account_abstraction.App.Codec.{Codec}
use account_abstraction.App.Policy.{
  Policy, normalize, check, allowed_method, selector_of, selector_allowed, decode_single_uint,
}
use account_abstraction.App.Policy.Create.{
  create_user_op_policy, normalize_all, selectors_of, read_caps,
}
use account_abstraction.Client.Sending.{Encoder, Network, execute_op}
use account_abstraction.Client.Sending.Accepted.{EncoderLaws, no_limits}
use account_abstraction.Client.Sending.Passes.{posted, IsDeployment, IsExecution, execute_op-passes}
use account_abstraction.Tests.Toys.{toy_ethers, sender, entry_point, starts_with_0x}
use account_abstraction.Tests.Policies.{toy_codec, storage, toy_policy, targets, text_drop}

abbrev toy_pad : String → String
toy_pad s = if s == "0" then zero_bytes32 else s

abbrev pub toy_encoder : Encoder
toy_encoder = record {
  to_be_hex = decimal;
  zero_pad_32 = toy_pad;
  concat = λ a b. template (a ∷ text_drop 2 b ∷ []);
  encode_create_account = λ owner salt. "0x5fbfb9cf";
  encode_execute = λ target inner. "0xb61d27f6";
}

abbrev half : ℕ → ℕ → ℕ
half from n = if nat_beq from 0 then n / 2 ^ 128 else n % 2 ^ 128

abbrev half_text : ℕ → Option ℤ → Result Exn String
half_text from (some (pos n)) = ok (decimal (half from n))
half_text from _ = err (plain_error "invalid data")

-- The halves of a word, and slices of other texts.
abbrev pub half_codec : Codec
half_codec = record toy_codec {
  data_slice = λ bytes from to.
      if nat_beq to 16 || nat_beq to 32
      then half_text from (big_of_text bytes)
      else toy_codec.data_slice bytes from to;
}

abbrev pub word_ethers : Ethers
word_ethers = record toy_ethers { is_hex_string_32 = λ v. true }

abbrev number : ℕ → Option ℤ
number n = some (pos n)

number-inj : {a b : ℕ} → number a ≡ some (pos b) → a ≡ b
number-inj h = cc

zero_read : big_of_text "0" ≡ some (pos 0)
unfolding big_of_text
zero_read = refl

word_read : big_of_text (to_lower zero_bytes32) ≡ some (pos 0)
unfolding big_of_text to_lower
word_read = refl

-- What is padded still reads as the number.
reads_padded : (n : ℕ) → big_of_text (to_lower (toy_pad (decimal n))) ≡ some (pos n)
reads_padded n = elim (Bool-cases (decimal n == "0")) [
  | inr other ↦ rw (other, to_lower-decimal n) (big_of_text-decimal n)
  | inl same ↦
      let zero_text = (eq_iff (decimal n) "0").0 same in
      let is_zero : number n ≡ some (pos 0) =
        sym (big_of_text-decimal n) ∙ ap big_of_text zero_text ∙ zero_read in
      rw (same, number-inj is_zero) word_read
]

zero_padded : toy_pad (decimal 0) ≡ zero_bytes32
unfolding decimal
zero_padded = refl

toy_laws : EncoderLaws toy_encoder word_ethers half_codec
toy_laws = record {
  padded_word = λ n small. refl;
  high_half = λ n small.
      (decimal (n / 2 ^ 128), ap (half_text 0) (reads_padded n), big_of_text-decimal (n / 2 ^ 128));
  low_half = λ n small. (
    decimal (n % 2 ^ 128),
    ap (half_text 16) (reads_padded n),
    big_of_text-decimal (n % 2 ^ 128),
  );
  zero_word = zero_padded;
  big-to_be_hex = λ n. big_of_text-decimal n;
}

abbrev pub network : Network
network = record {
  bundler_url = "https://bundler.l-net.io";
  entry_point = entry_point;
  factory = sender;
}

abbrev closed_policy : Policy
closed_policy = record toy_policy { factory = some sender }

made :
    create_user_op_policy word_ethers half_codec
      (str entry_point)
      (str sender)
      targets
      ("set(uint256)" ∷ [])
      no_limits
    ≡ ok closed_policy
unfolding create_user_op_policy normalize normalize_all selectors_of read_caps to_lower to_big
    OrderedMap.set
made = refl

abbrev calldata : String
calldata = "0x60fe47b105"

deployed :
    IsDeployment toy_encoder word_ethers half_codec
      (toy_encoder.concat sender (toy_encoder.encode_create_account sender 7))
      sender
      sender
unfolding starts_with_0x template
deployed = record {
  made_by = sender;
  call = "0x5fbfb9cf";
  selector = "0x5fbfb9cf";
  created_for = sender;
  is_hex = refl;
  has_address = refl;
  factory_first = refl;
  same_factory = refl;
  then_call = refl;
  call_selector = refl;
  is_create_account = refl;
  decodes = refl;
  same_owner = refl;
}

executed :
    IsExecution toy_encoder word_ethers half_codec
      (toy_encoder.encode_execute storage calldata)
      storage
      calldata
unfolding starts_with_0x template
executed = record {
  selector = "0xb61d27f6";
  called = storage;
  is_hex = refl;
  call_selector = refl;
  is_execute = refl;
  decodes = refl;
  same_target = refl;
}

chosen : selector_of word_ethers half_codec calldata ≡ ok "0x60fe47b1"
unfolding to_lower template
chosen = refl

listed : selector_allowed word_ethers half_codec closed_policy "0x60fe47b1" ≡ true
unfolding OrderedMap.get
listed = refl

execute_op-passes_example :
    check word_ethers half_codec closed_policy (
      posted toy_encoder
        (str "1")
        (record (execute_op toy_encoder network sender sender 7 storage calldata) {
          signature = "0x01";
        })
        entry_point)
    ≡ ok (record {
      method = allowed_method;
      sender = sender;
      target = storage;
      owner = some sender;
      inner = record {
        selector = "0x60fe47b1";
        signature = OrderedMap.get "0x60fe47b1" closed_policy.inner_selectors;
        value =
            decode_single_uint word_ethers half_codec
              (OrderedMap.get "0x60fe47b1" closed_policy.inner_selectors)
              calldata;
      };
    })
execute_op-passes_example =
    execute_op-passes toy_encoder word_ethers half_codec toy_laws targets ("set(uint256)" ∷ [])
      closed_policy network (str "1") sender sender 7 storage calldata "0x01" sender sender sender
      storage "0x60fe47b1" made deployed executed refl refl refl refl chosen refl listed
      (ground arith)
