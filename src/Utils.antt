-- ===== src/Utils.antt =====
-- Core/Utils/Functions: text, numbers in text, and hashes. A `std::string` is the list of its bytes.
pub mod Numbers
pub mod Xml
pub mod Explode
pub mod CText
pub mod Strings
pub mod JsonFields
pub mod Hash
pub mod XmlTree
