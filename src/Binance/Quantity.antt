-- ===== src/Binance/Quantity.antt =====
-- The quantities and statuses of internal/broker/binance/client.go: `GetDefaultStepSize`,
-- `TruncateToStepSize` and `mapOrderStatus`.
use Prim.Native.Char.{code}
use pregao.Prelude.{
  ℕ, suc, Bool, ◌==◌, ◌||◌, ◌≡◌, refl, false, String, Option, none, some, if◌then◌else◌, true,
}
use pregao.Prelude.Text.{◌=ₛ◌, to_upper, trim_space, trim_right}
use pregao.Errors.{Result}
use pregao.Decimal.{Decimals, at_most}
use pregao.Db.Models.{
  status_submitted, status_partial, status_filled, status_canceled, status_rejected, status_pending,
}

-- The text from which the step size is made.
unfoldable pub step_size_text : String → String
step_size_text symbol =
    let s = to_upper (trim_space symbol) in
    if s =ₛ "BTCUSDT"
    then "0.00001000"
    else if s =ₛ "ETHUSDT"
    then "0.00010000"
    else if s =ₛ "SOLUSDT"
    then "0.01000000"
    else if s =ₛ "BNBUSDT"
    then "0.00100000"
    else if s =ₛ "DOGEUSDT"
    then "1.00000000"
    else if s =ₛ "ADAUSDT" || s =ₛ "XRPUSDT"
    then "0.10000000"
    else "0.00010000"

-- The text after the first point: `strings.Index`, and the slice from there.
abbrev after_point : String → Option String
after_point String.[] = none
after_point (String.◌∷◌ c s) = if code c == b'.' then some s else after_point s

abbrev text_length : String → ℕ
text_length String.[] = 0
text_length (String.◌∷◌ c s) = suc (text_length s)

-- The places of a step size, without the zeros at its end unless there are only zeros.
unfoldable pub step_places : String → ℕ
unfolding trim_right
step_places step_text = elim (after_point step_text) [
  | none ↦ 0
  | some places ↦
      let n = text_length (trim_right (λ c. code c == b'0') places) in
      if n == 0 then text_length places else n
]

module _ {D : Type 0} ⦃d : Decimals D⦄ where
  -- `GetDefaultStepSize`; the error is the panic of `RequireFromString`.
  unfoldable pub get_default_step_size : String → Result D
  unfolding step_size_text
  get_default_step_size symbol = d.parse (step_size_text symbol)

  -- `TruncateToStepSize`
  unfoldable pub truncate_to_step_size : D → D → D × String
  unfolding step_places
  truncate_to_step_size qty step_size =
      if at_most step_size d.zero
      then (qty, d.show qty)
      else (let quantized = d.mul (d.floor (d.div qty step_size)) step_size in
          (quantized, d.show_fixed quantized (step_places (d.show step_size))))

-- `mapOrderStatus`
unfoldable pub map_order_status : String → String
map_order_status binance_status =
    let s = to_upper binance_status in
    if s =ₛ "NEW"
    then status_submitted
    else if s =ₛ "PARTIALLY_FILLED"
    then status_partial
    else if s =ₛ "FILLED"
    then status_filled
    else if s =ₛ "CANCELED" || s =ₛ "EXPIRED"
    then status_canceled
    else if s =ₛ "REJECTED"
    then status_rejected
    else status_submitted

-- The choice of `mapOrderStatus`, by its tests.
abbrev choice : Bool → Bool → Bool → Bool → Bool → String
choice new partial filled canceled rejected =
    if new
    then status_submitted
    else if partial
    then status_partial
    else if filled
    then status_filled
    else if canceled
    then status_canceled
    else if rejected
    then status_rejected
    else status_submitted

choice_settled : (a b c e f : Bool) → (choice a b c e f =ₛ status_pending) ≡ false
choice_settled true b c e f = refl
choice_settled false true c e f = refl
choice_settled false false true e f = refl
choice_settled false false false true f = refl
choice_settled false false false false true = refl
choice_settled false false false false false = refl

-- No status of Binance's is read as a reservation.
pub map_order_status-settled : (s : String) → (map_order_status s =ₛ status_pending) ≡ false
unfolding map_order_status
map_order_status-settled s =
    choice_settled (to_upper s =ₛ "NEW") (to_upper s =ₛ "PARTIALLY_FILLED") (to_upper s =ₛ "FILLED")
      (to_upper s =ₛ "CANCELED" || to_upper s =ₛ "EXPIRED") (to_upper s =ₛ "REJECTED")
