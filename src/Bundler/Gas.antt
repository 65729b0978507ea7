-- ===== src/Bundler/Gas.antt =====
-- `LnetBundler.estimateUserOperationGas` of bundler/src/index.js, after the checks of its input.
use account_abstraction.Base.{
  ℕ, ◌+◌, ◌-◌, ◌*◌, ◌/◌, ◌%◌, ◌^◌, ◌<◌, ◌≡◌, some, Result, ok, ◌>>=◌, or_throw, nat_beq,
  if◌then◌else◌, arith,
}
use account_abstraction.Js.Value.{ℤ, pos, negsuc, Value, str, obj, end, field}
use account_abstraction.Js.Number.{big_of_text}
use account_abstraction.Ethers.{Ethers, Exn, plain_error}
use account_abstraction.Bundler.Types.{UserOp}
use account_abstraction.Bundler.Normalize.{to_hex}

-- `n || d` for bigints
abbrev pub big_or : ℤ → ℕ → ℤ
big_or (pos n) d = if nat_beq n 0 then pos d else pos n
big_or (negsuc n) d = negsuc n

-- `n >> 128n` and `n & ((1n << 128n) - 1n)`; a bytes32 text is never negative
abbrev pub high_half : ℤ → ℤ
high_half (pos n) = pos (n / 2 ^ 128)
high_half (negsuc n) = negsuc (n / 2 ^ 128)

abbrev pub low_half : ℤ → ℤ
low_half (pos n) = pos (n % 2 ^ 128)
low_half (negsuc n) = pos (2 ^ 128 - 1 - n % 2 ^ 128)

module _ (e : Ethers) where
  unfoldable pub gas_estimate : UserOp → Result Exn Value
  gas_estimate op = do
    account_gas ←
        or_throw (big_of_text op.account_gas_limits) (plain_error "Cannot convert to a BigInt")
    pre_verification_gas ← to_hex e (big_or op.pre_verification_gas 100000)
    verification_gas_limit ← to_hex e (big_or (high_half account_gas) 3000000)
    call_gas_limit ← to_hex e (big_or (low_half account_gas) 1000000)
    ok (
        obj (
          field "preVerificationGas" (str pre_verification_gas) (
            field "verificationGasLimit" (str verification_gas_limit) (
              field "callGasLimit" (str call_gas_limit) (
                field "paymasterVerificationGasLimit" (str "0x0")
                  (field "paymasterPostOpGasLimit" (str "0x0") end))))))

  -- The estimate is the two halves of `accountGasLimits` and the operation's own
  -- `preVerificationGas`, each replaced by its default where it is 0.
  pub gas_estimate-halves :
      (op : UserOp) (hi lo gas : ℕ)
      → big_of_text op.account_gas_limits ≡ some (pos (hi * 2 ^ 128 + lo))
      → lo < 2 ^ 128
      → op.pre_verification_gas ≡ pos gas
      → let or_default : ℕ → ℕ → Value =
          λ n d. str (e.to_quantity (if nat_beq n 0 then d else n)) in
        gas_estimate op
        ≡ ok (
            obj (
              field "preVerificationGas" (or_default gas 100000) (
                field "verificationGasLimit" (or_default hi 3000000) (
                  field "callGasLimit" (or_default lo 1000000) (
                    field "paymasterVerificationGasLimit"
                      (str "0x0")
                      (field "paymasterPostOpGasLimit" (str "0x0") end))))))
  unfolding gas_estimate to_hex
  gas_estimate-halves op hi lo gas h l g =
      let high : (hi * 2 ^ 128 + lo) / 2 ^ 128 ≡ hi = omega arith in
      let low : (hi * 2 ^ 128 + lo) % 2 ^ 128 ≡ lo = omega arith in
      rw (h, g) (rw (high, low) (ground arith))
