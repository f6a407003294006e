-- ===== src/Escl/Service.antt =====
-- The eSCL manager as the printer calls it: each request reads the next state of the world.
use virtual_usb_printer.Common.{ℕ, suc, Result, ok, ◌>>=◌}
use virtual_usb_printer.BaseStrings.{BaseStrings}
use virtual_usb_printer.SmartBuffer.{SmartBuffer}
use virtual_usb_printer.Http.Request.{HttpRequest}
use virtual_usb_printer.Http.Response.{HttpResponse}
use virtual_usb_printer.Printer.Data.{EsclService}
use virtual_usb_printer.Escl.Manager.{EsclManager, EsclXml, World, handle_escl_request}

pub record Scanner : Type 0 where
  pub manager : EsclManager
  pub worlds : ℕ → World

-- The manager behind a request, and the worlds that are left.
unfoldable pub serve_request :
    BaseStrings → EsclXml → Scanner → HttpRequest → SmartBuffer → Result (HttpResponse × Scanner)
unfolding handle_escl_request
serve_request base xml self request body =
    handle_escl_request base xml (self.worlds 0) self.manager request body >>= λ served.
    ok (served.0, record { manager = served.1; worlds = λ n. self.worlds (suc n) })

unfoldable pub escl_service : BaseStrings → EsclXml → EsclService Scanner
unfolding serve_request
escl_service base xml = record {
  handle_escl_request = λ self request body. serve_request base xml self request body;
}
