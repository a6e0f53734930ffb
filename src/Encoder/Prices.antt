-- ===== src/Encoder/Prices.antt =====
-- The prices of encoder_base.h: an estimate of how many bits the coding of a bit or a symbol takes.
use lzip_os.Base.{ℕ, zero, suc, ◌+◌, ◌-◌, ◌*◌, ◌^◌, leb, ◌==◌, if◌then◌else◌, Bool, not}
use lzip_os.Base.{List, [], ◌∷◌, get_or, bit, bit_and, bit_or, bit_xor, u32, ◌<<<◌, ◌>>>◌}
use lzip_os.Lzip.Model.{BitModel, fresh_model, bit_model_total, bit_model_total_bits}
use lzip_os.Encoder.Symbols.{clear_bits}

abbrev pub price_shift_bits : ℕ
price_shift_bits = 6

abbrev pub price_step_bits : ℕ
price_step_bits = 2

abbrev pub price_step : ℕ
price_step = 4

-- `while( val >= 1 << 16 )`: a value of 32 bits is below that after 16 rounds.
unfoldable pub reduce : ℕ → ℕ → ℕ → record { val : ℕ; bits : ℕ }
reduce zero val bits = record { val = val; bits = bits }
reduce (suc rounds) val bits =
    let rest = reduce rounds (val >>> 1) (bits + 1) in
    if leb (2 ^ 16) val then rest else record { val = val; bits = bits }

-- The loop on `j`: the bits of the logarithm of `val`.
unfoldable pub logarithm : ℕ → ℕ → ℕ → ℕ
unfolding reduce
logarithm zero val bits = bits
logarithm (suc rounds) val bits =
    let r = reduce 16 (u32 (val * val)) (bits <<< 1) in logarithm rounds r.val r.bits

unfoldable pub prob_price : ℕ → ℕ
unfolding logarithm
prob_price i =
    bit_model_total_bits <<< price_shift_bits
    - (logarithm price_shift_bits (i * price_step + 2) 0 + 15)

unfoldable pub prices_from : ℕ → ℕ → List ℕ
unfolding prob_price
prices_from zero i = []
prices_from (suc rounds) i = prob_price i ∷ prices_from rounds (i + 1)

-- The array `data` of Prob_prices after `init`.
unfoldable pub prob_prices : List ℕ
unfolding prices_from
prob_prices = prices_from (bit_model_total >>> price_step_bits) 0

unfoldable pub price0 : BitModel → ℕ
unfolding prob_prices
price0 bm = get_or prob_prices (bm >>> price_step_bits) 0

unfoldable pub price1 : BitModel → ℕ
unfolding prob_prices
price1 bm = get_or prob_prices ((bit_model_total - bm) >>> price_step_bits) 0

unfoldable pub price_bit : BitModel → Bool → ℕ
unfolding price0 price1
price_bit bm b = if b then price1 bm else price0 bm

-- `symbol & 1` as a bool.
abbrev pub last_bit : ℕ → Bool
last_bit symbol = not (bit_and symbol 1 == 0)

abbrev pub price_at : List BitModel → ℕ → Bool → ℕ
price_at bm model b = price_bit (get_or bm model fresh_model) b

-- `rounds` lines of `bit = symbol & 1; symbol >>= 1; price += ...`, and the last one.
unfoldable pub price_up : ℕ → List BitModel → ℕ → ℕ → ℕ
unfolding price_bit
price_up zero bm symbol price = price + price_at bm 1 (last_bit symbol)
price_up (suc rounds) bm symbol price =
    price_up rounds bm (symbol >>> 1) (price + price_at bm (symbol >>> 1) (last_bit symbol))

-- A symbol of `rounds + 2` bits, with the bit above them set.
abbrev pub price_symbol : ℕ → ℕ → List BitModel → ℕ → ℕ
price_symbol rounds top bm symbol =
    let symbol' = bit_or symbol top >>> 1 in
    price_up rounds bm symbol' (price_at bm symbol' (last_bit symbol))

unfoldable pub price_symbol3 : List BitModel → ℕ → ℕ
unfolding price_up
price_symbol3 bm symbol = price_symbol 1 8 bm symbol

unfoldable pub price_symbol6 : List BitModel → ℕ → ℕ
unfolding price_up
price_symbol6 bm symbol = price_symbol 4 64 bm symbol

unfoldable pub price_symbol8 : List BitModel → ℕ → ℕ
unfolding price_up
price_symbol8 bm symbol = price_symbol 6 0x100 bm symbol

unfoldable pub price_reversed_loop : ℕ → List BitModel → ℕ → ℕ → ℕ → ℕ
unfolding price_bit
price_reversed_loop zero bm symbol model price = price
price_reversed_loop (suc i) bm symbol model price =
    let b = last_bit symbol in
    price_reversed_loop i bm (symbol >>> 1) (bit_or (model <<< 1) (bit b))
      (price + price_at bm model b)

unfoldable pub price_symbol_reversed : List BitModel → ℕ → ℕ → ℕ
unfolding price_reversed_loop
price_symbol_reversed bm symbol num_bits = price_reversed_loop num_bits bm symbol 1 0

-- The loop of `price_matched`; `symbol` begins with nine digits and the loop ends when it has 17.
unfoldable pub price_matched_loop : ℕ → List BitModel → ℕ → ℕ → ℕ → ℕ → ℕ
unfolding price_bit
price_matched_loop zero bm symbol match_byte mask price = price
price_matched_loop (suc rounds) bm symbol match_byte mask price =
    let byte = u32 (match_byte <<< 1) in
    let match_bit = bit_and byte mask in
    let shifted = u32 (symbol <<< 1) in
    let b = not (bit_and shifted 0x100 == 0) in
    let price' = price + price_at bm (shifted >>> 9 + match_bit + mask) b in
    let more =
      price_matched_loop rounds bm shifted byte (clear_bits mask (bit_xor match_bit shifted))
        price' in
    if leb 0x10000 shifted then price' else more

unfoldable pub price_matched : List BitModel → ℕ → ℕ → ℕ
unfolding price_matched_loop
price_matched bm symbol match_byte =
    price_matched_loop 8 bm (bit_or symbol 0x100) match_byte 0x100 0
