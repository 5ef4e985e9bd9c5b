-- ===== src/Notification/Copy.antt =====
-- The texts of notifications and mails (notification/internal/service.go).
pub mod Grouped
use Prim.Native.Char.{code}
use Prim.Native.String.{char_at}
use goshop_x.Notification.Tables.{list_value, other_leaf, leaf, text_leaf, number_leaf, Value, Leaf}
use goshop_x.Base.{
  Bool, suc, ◌%◌, decimal_int, byte_length, decimal, parse_int64, ◌==◌, ◌&&◌, ◌||◌, has_prefix,
  none, [], some, is_empty, ◌+◌, trim_space, append, not, same, Option, ℕ, ◌∷◌, to_lower,
  if◌then◌else◌, List, String,
}

unfoldable pub notification_copy : String → String × String
notification_copy event_type =
    if same event_type "auth.password_reset_otp"
    then ("Mã OTP đổi mật khẩu", "Bạn vừa yêu cầu đổi mật khẩu. Dùng mã OTP bên dưới để tiếp tục.")
    else (if same event_type "payment.succeeded"
        then ("Thanh toán thành công", "Thanh toán đơn hàng của bạn đã được xác nhận thành công.")
        else (if same event_type "payment.failed"
            then (
              "Thanh toán thất bại",
              "Thanh toán chưa thành công. Vui lòng thử lại hoặc chọn phương thức khác.",
            )
            else (if same event_type "order.created"
                then (
                  "Đơn hàng đã được tạo", "Đơn hàng của bạn đã được tạo và đang chờ thanh toán.",
                )
                else (if same event_type "order.cod_created"
                    then (
                      "Đặt đơn COD thành công",
                      "Đơn COD của bạn đã được tiếp nhận và đang chờ thu tiền.",
                    )
                    else (if same event_type "order.payment_status_updated"
                        then (
                          "Cập nhật thanh toán đơn hàng",
                          "Trạng thái thanh toán đơn hàng của bạn vừa được cập nhật.",
                        )
                        else (if same event_type "inventory.released"
                            then (
                              "Reservation released", "A reserved item was released back to stock.",
                            )
                            else (if same event_type "inventory.committed"
                                then (
                                  "Stock committed",
                                  "Your reserved stock was committed after payment.",
                                )
                                else (if same event_type "cart.checkout_prepared"
                                    then (
                                      "Checkout ready", "Your reserved cart is ready for checkout.",
                                    )
                                    else (if has_prefix event_type "cart."
                                        then ("Cart updated", "Your shopping cart was updated.")
                                        else (if has_prefix event_type "inventory."
                                            then (
                                              "Inventory updated",
                                              append "Inventory event received: " event_type,
                                            )
                                            else ("", "")))))))))))

unfoldable pub vietnamese_status : String → String
vietnamese_status status =
    let lower = to_lower status in
    if same lower "pending"
    then "Đang chờ xử lý"
    else (if same lower "paid"
          || same lower "succeeded"
          || same lower "success"
          || same lower "completed"
        then "Đã thanh toán"
        else (if same lower "cod_pending"
            then "Thanh toán khi nhận hàng"
            else (if same lower "failed" then "Thanh toán thất bại" else status)))

-- `len` of a number's text, whose characters are single bytes.
unfoldable pub digit_count : String → ℕ
digit_count String.[] = 0
digit_count (String.◌∷◌ c s) = suc (digit_count s)

-- Whether a point stands before this end of the text: a multiple of three characters is left.
unfoldable pub starts_group : String → Bool
starts_group s = not (digit_count s == 0) && digit_count s % 3 == 0

-- The points between groups of three characters, counted from the end.
unfoldable pub dotted : String → String
dotted String.[] = String.[]
dotted (String.◌∷◌ c s) =
    let rest = dotted s in
    String.◌∷◌ c (if starts_group s then String.◌∷◌ (char_at "." 0) rest else rest)

-- `strings.ReplaceAll(raw, ",", "")`.
unfoldable pub without_commas : String → String
without_commas String.[] = String.[]
without_commas (String.◌∷◌ c s) =
    let rest = without_commas s in if code c == b',' then rest else String.◌∷◌ c rest

-- The parts written one after another.
unfoldable pub joined : List String → String
joined [] = ""
joined (s ∷ ss) = append s (joined ss)

module _ {F : Type 0} (show_rounded : F → String) where
  unfoldable pub number_text : Leaf F → String
  number_text (number_leaf x) = show_rounded x
  number_text (text_leaf s) = s
  number_text other_leaf = ""

  unfoldable pub string_value : Leaf F → String
  string_value (text_leaf s) = s
  string_value (number_leaf _) = ""
  string_value other_leaf = ""

  -- A list is neither a number nor a text.
  abbrev pub leaf_of : Value F → Leaf F
  leaf_of (leaf l) = l
  leaf_of (list_value _) = other_leaf

  unfoldable pub format_vnd : Leaf F → String
  format_vnd l =
      let raw = trim_space (number_text l) in
      if is_empty raw then "" else elim (parse_int64 (without_commas raw)) [
        | none ↦ append raw " ₫"
        | some amount ↦ append (dotted (decimal_int amount)) " ₫"
      ]

  unfoldable pub product_lines : ℕ → List (Option (String → Leaf F)) → String
  product_lines i [] = ""
  product_lines i (none ∷ ps) = product_lines (i + 1) ps
  product_lines i (some p ∷ ps) = joined (
      "\n"
      ∷ decimal i
      ∷ ". "
      ∷ string_value (p "name")
      ∷ "\n   Mã sản phẩm: "
      ∷ string_value (p "id")
      ∷ "\n   Mô tả: "
      ∷ string_value (p "description")
      ∷ "\n   Đơn giá: "
      ∷ format_vnd (p "price")
      ∷ "\n   Số lượng: "
      ∷ number_text (p "quantity")
      ∷ product_lines (i + 1) ps
      ∷ [])

  -- A part that is left out where its text is empty.
  abbrev pub part : String → String → String → String
  part before text after = if is_empty text then "" else append before (append text after)

  abbrev pub products_part : Value F → String
  products_part (leaf _) = ""
  products_part (list_value []) = ""
  products_part (list_value (p ∷ ps)) = append "\n\nChi tiết sản phẩm:" (product_lines 1 (p ∷ ps))

  unfoldable pub mail_body : String → String → (String → Value F) → String
  mail_body event_type message values =
      let text = λ (name : String). string_value (leaf_of (values name)) in
      joined (
        message
        ∷ (if same event_type "auth.password_reset_otp"
            then part "\n\nMã OTP đổi mật khẩu: " (text "otp")
                "\nMã OTP chỉ dùng một lần và có thời hạn ngắn."
            else "")
        ∷ part "\n\nĐơn hàng #" (number_text (leaf_of (values "order_id"))) ""
        ∷ (if is_empty (text "status")
            then ""
            else append "\nTrạng thái đơn hàng: " (vietnamese_status (text "status")))
        ∷ (if is_empty (text "payment_status")
            then ""
            else append "\nTrạng thái thanh toán: " (vietnamese_status (text "payment_status")))
        ∷ part "\nTổng tiền: " (format_vnd (leaf_of (values "total_price"))) ""
        ∷ products_part (values "products")
        ∷ [])

  unfoldable pub notification_email :
      String → String → String → Option (String → Value F) → String × String
  notification_email event_type title message none = (title, message)
  notification_email event_type title message (some values) =
      let order = number_text (leaf_of (values "order_id")) in
      (
        if is_empty order then title else append title (append " - Đơn hàng #" order),
        mail_body event_type message values,
      )
