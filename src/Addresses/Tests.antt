-- ===== src/Addresses/Tests.antt =====
-- Tests of addresses, with one text for a number.
use wayvnc.Prelude.{◌≡◌, refl, false, some, [], ◌∷◌, if◌then◌else◌, arith}
use wayvnc.Prelude.Int.{ℤ, pos}
use wayvnc.Pixels.{to_uint32}
use wayvnc.Text.{Str, str_eq}
use wayvnc.JsonIpc.{text}
use wayvnc.Addresses.{
  tcp, normal, websocket, listen_tcp, listen_unix, is_prefix, parse_address_prefix, port_of,
  listen_on, listening_address, add_listening_address, add_each, apply_addresses, tokens,
}
use wayvnc.Addresses.Forms.{Address, bracket_port, print, IsWritten, listening_address-print}

abbrev number : Str → ℤ
number s = if str_eq s (text "5901") then pos 5901 else pos 0

-- ws:[::1]:5901
abbrev local : Address
local = bracket_port websocket (text "::1") (text "5901") 5901

local-IsWritten : IsWritten number local
unfolding port_of to_uint32 str_eq
local-IsWritten =
    ((λ e. omega (arith, e), (λ e. omega (arith, e), (λ e. omega (arith, e), tt))), refl, refl)

listening_address-print_example :
    listening_address number (print local) 5900 tcp normal ≡ listen_tcp (text "::1") 5901 websocket
listening_address-print_example =
    listening_address-print number local 5900 tcp normal local-IsWritten (omega arith)

-- The second address is not reached.
two_addresses :
    apply_addresses number (λ call. false) (some (text " unix:/tmp/s  ::1 ")) 0 tcp normal
    ≡ (listen_unix (text "/tmp/s") normal ∷ [], false)
unfolding apply_addresses tokens add_each add_listening_address listening_address listen_on
    parse_address_prefix is_prefix
two_addresses = refl
