-- ===== src/Soap.antt =====
-- The SOAP client (asyncio_gateway/logic/soap_client.py): the envelope of a call and its headers, the
-- scan of a response's prolog, the depth of a fault's detail, the reading of a fault, and the order in
-- which a response is judged.
pub mod Prolog
pub mod Elements
pub mod Faults
pub mod Answers
pub mod Requests
pub mod Actions
