-- ===== src/Application/PaymentCodes.antt =====
-- application/payment_codes.py: the codes by which a customer pays a merchant.
use Prim.Native.Char.{code}
use drc_pay.Base.{string_eq, nat_eq, ◌&&◌, ◌==◌, if◌then◌else◌}
use Prim.Native.String.{String, ◌++◌}

pub record MerchantPaymentCode : Type 0 where
  pub short_code : String
  pub ussd_string : String
  pub tel_uri : String

-- `rstrip("#")`
unfoldable pub strip_hashes : String → String
strip_hashes String.[] = String.[]
strip_hashes (String.◌∷◌ c s) =
    let rest = strip_hashes s in
    if code c == b'#' && rest == "" then String.[] else String.◌∷◌ c rest

-- `replace("#", "%23")`
unfoldable pub escape_hashes : String → String
escape_hashes String.[] = String.[]
escape_hashes (String.◌∷◌ c s) =
    let rest = escape_hashes s in if code c == b'#' then "%23" ++ rest else String.◌∷◌ c rest

-- `merchant_payment_code`
unfoldable pub merchant_payment_code : String → String → MerchantPaymentCode
unfolding strip_hashes escape_hashes
merchant_payment_code shortcode short_code =
    let dialled = strip_hashes shortcode ++ ("*" ++ (short_code ++ "#")) in
    record {
      short_code = short_code;
      ussd_string = dialled;
      tel_uri = "tel:" ++ escape_hashes dialled;
    }
